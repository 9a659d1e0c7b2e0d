-- ===== src/Events/Tests.antt =====
-- A cluster that only knows the last version of the events API.
use kuttl.Common.{ℕ, true, false, Option, none, some, List, [], ◌∷◌, ◌++◌, ◌≡◌, refl}
use kuttl.Common.Text.{Bytes, codes}
use kuttl.Common.Sort.{sort, IsSorted}
use kuttl.Logger.{new_test_logger}
use kuttl.Kube.Errors.{ok, err, api, not_found}
use kuttl.Kube.Objects.{Event, core_v1}
use kuttl.Kube.Outside.{Outside}
use kuttl.Kube.Simulated.{simulated, later}
use kuttl.Events.{by_first_timestamp, collect_and_log}
use kuttl.Events.Laws.{Ordered, first, next, event_lines, collect_and_log-events}

abbrev event : Bytes → ℕ → Event
event name creation = record {
  name = name;
  creation = creation;
  event_type = codes "Normal";
  regarding = record {
    api_version = codes "v1";
    kind = codes "Pod";
    name = codes "web";
    field_path = [];
  };
  action = [];
  reason = codes "Started";
  note = [];
  reporting_controller = [];
  related = none;
}

abbrev two_events : List Event
two_events = event (codes "b") 7 ∷ event (codes "a") 3 ∷ []

abbrev old : Outside
old = record simulated {
  list_events = λ cl version namespace c. elim version [
    | core_v1 ↦ (ok two_events, later c)
    | _ ↦ (err (api not_found), later c)
  ];
}

two_events-sorted :
    sort by_first_timestamp two_events ≡ event (codes "a") 3 ∷ event (codes "b") 7 ∷ []
unfolding sort kuttl.Common.Sort.insert_sorted by_first_timestamp
two_events-sorted = refl

collect_and_log-events_example :
    let logged =
      collect_and_log old tt
        (codes "ns")
        (codes "case")
        (new_test_logger (codes "t"))
        (record { objects = []; time = 0 }) in
    (logged.1 ≡ record { objects = []; time = 3 })
    × ((before : List (Bytes × Bytes)) × (sorted : List Event) × Ordered two_events sorted
        × (logged.0.lines
            ≡ (new_test_logger (codes "t")).lines
              ++ (before ++ event_lines old (new_test_logger (codes "t")).prefix sorted)))
collect_and_log-events_example =
    collect_and_log-events old tt (codes "ns") (codes "case")
      {w = record { objects = []; time = 0 }} {w' = record { objects = []; time = 3 }}
      {es = two_events} (new_test_logger (codes "t")) (next refl (next refl (first refl)))
