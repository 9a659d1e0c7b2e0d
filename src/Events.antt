-- ===== src/Events.antt =====
-- internal/utils/events/events.go: the events of a namespace in the log. The three versions of
-- the API differ in the names of fields only, so the functions for them share their code here.
pub mod Laws
mod Tests
use kuttl.Common.{ℕ, Bool, Option, none, some, List, [], ◌∷◌, ◌++◌, if◌then◌else◌, nat_eq, ltb}
use kuttl.Common.Text.{Bytes, codes, is_empty}
use kuttl.Common.Sort.{sort, bytes_lt}
use kuttl.Logger.{TestLogger, log}
use kuttl.Kube.Errors.{Error, Result, ok, err}
use kuttl.Kube.Objects.{Gvk, Event, EventReference, EventApi, events_v1, events_v1beta1, core_v1}
use kuttl.Kube.Outside.{Outside}

-- `Less` of the three sorts
unfoldable pub by_first_timestamp : Event → Event → Bool
unfolding bytes_lt
by_first_timestamp e f =
    if nat_eq e.creation f.creation then bytes_lt e.name f.name else ltb e.creation f.creation

-- `GroupKind.String`
unfoldable pub group_kind : Gvk → Bytes
group_kind g = if is_empty g.group then g.kind else g.kind ++ (b'.' ∷ g.group)

abbrev pub tab : Bytes
tab = b'\t' ∷ []

-- Columns with tabs between them.
unfoldable pub columns : Bytes → List Bytes → Bytes
columns c [] = c
columns c (d ∷ ds) = c ++ (tab ++ columns d ds)

abbrev pub collect_failed : Bytes → Bytes → Bytes → Bytes
collect_failed case_name namespace text =
    codes "Failed to collect events for "
    ++ (case_name ++ (codes " in ns " ++ (namespace ++ (codes ": " ++ text))))

abbrev pub heading : Bytes → Bytes → Bytes
heading case_name namespace = case_name ++ (codes " events from ns " ++ (namespace ++ codes ":"))

module _ (o : Outside) where
  unfoldable pub short_string : Option EventReference → Bytes
  unfolding group_kind
  short_string none = []
  short_string (some r) =
      group_kind (o.parse_gvk r.api_version r.kind)
      ++ (codes " " ++ (r.name ++ (if is_empty r.field_path then [] else b'.' ∷ r.field_path)))

  -- The line for an event.
  unfoldable pub event_line : Event → Bytes
  unfolding columns short_string
  event_line e = columns (o.time_text e.creation) (
      e.event_type
      ∷ short_string (some e.regarding)
      ∷ e.action
      ∷ e.reason
      ∷ e.note
      ∷ e.reporting_controller
      ∷ short_string e.related
      ∷ [])

  unfoldable pub print_events : List Event → TestLogger → TestLogger
  unfolding event_line log
  print_events [] logger = logger
  print_events (e ∷ es) logger = print_events es (log logger (event_line e))

  -- What follows the call of `List`.
  unfoldable pub log_listed :
      Bytes
      → Bytes
      → TestLogger
      → Result (List Event) × o.World
      → (Option Error × TestLogger) × o.World
  unfolding by_first_timestamp sort print_events log
  log_listed namespace case_name logger (err e, w) =
      ((some e, log logger (collect_failed case_name namespace (o.error_text e))), w)
  log_listed namespace case_name logger (ok events, w) = (
    (
      none,
      print_events (sort by_first_timestamp events) (log logger (heading case_name namespace)),
    ),
    w,
  )

  unfoldable pub collect_events :
      EventApi
      → o.Client
      → Bytes
      → Bytes
      → TestLogger
      → o.World
      → (Option Error × TestLogger) × o.World
  unfolding log_listed
  collect_events version cl namespace case_name logger w =
      log_listed namespace case_name logger (o.list_events cl version namespace w)

  unfoldable pub collect_events_v1 :
      o.Client → Bytes → Bytes → TestLogger → o.World → (Option Error × TestLogger) × o.World
  unfolding collect_events
  collect_events_v1 = collect_events events_v1

  unfoldable pub collect_events_beta1 :
      o.Client → Bytes → Bytes → TestLogger → o.World → (Option Error × TestLogger) × o.World
  unfolding collect_events
  collect_events_beta1 = collect_events events_v1beta1

  unfoldable pub collect_events_core_v1 :
      o.Client → Bytes → Bytes → TestLogger → o.World → (Option Error × TestLogger) × o.World
  unfolding collect_events
  collect_events_core_v1 = collect_events core_v1

  -- What `CollectAndLog` does after each of its calls.
  unfoldable pub after_core_v1 : (Option Error × TestLogger) × o.World → TestLogger × o.World
  unfolding log
  after_core_v1 ((none, logger), w) = (logger, w)
  after_core_v1 ((some e, logger), w) = (log logger (codes "All event APIs failed"), w)

  unfoldable pub after_beta1 :
      o.Client → Bytes → Bytes → (Option Error × TestLogger) × o.World → TestLogger × o.World
  unfolding collect_events_core_v1 after_core_v1 log
  after_beta1 cl namespace case_name ((none, logger), w) = (logger, w)
  after_beta1 cl namespace case_name ((some e, logger), w) = after_core_v1 (
      collect_events_core_v1 cl namespace case_name
        (log logger (codes "Trying with events corev1 API...")) w)

  unfoldable pub after_v1 :
      o.Client → Bytes → Bytes → (Option Error × TestLogger) × o.World → TestLogger × o.World
  unfolding collect_events_beta1 after_beta1 log
  after_v1 cl namespace case_name ((none, logger), w) = (logger, w)
  after_v1 cl namespace case_name ((some e, logger), w) = after_beta1 cl namespace case_name (
      collect_events_beta1 cl namespace case_name
        (log logger (codes "Trying with events eventsv1beta1 API...")) w)

  unfoldable pub collect_and_log :
      o.Client → Bytes → Bytes → TestLogger → o.World → TestLogger × o.World
  unfolding collect_events_v1 after_v1
  collect_and_log cl namespace case_name logger w =
      after_v1 cl namespace case_name (collect_events_v1 cl namespace case_name logger w)
