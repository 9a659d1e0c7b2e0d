-- ===== src/Events/Laws.antt =====
-- Which events the log gets.
use mathlib.Core.List.{append_assoc, append-nil, map}
use kuttl.Common.{
  Bool, false, ◌<◌, ◌⊎◌, inl, inr, Bool-cases, nat_eq, count_if, none, some, List, [], ◌∷◌, ◌++◌,
  ◌≡◌, refl, sym, ◌∙◌, arith,
}
use kuttl.Common.Text.{Bytes}
use kuttl.Common.Sort.{
  sort, IsSorted, IsAsymmetric, sort-IsSorted, bytes_lt-IsAsymmetric, count_if-sort, NotAfter,
  bytes_lt-NotAfter,
}
use kuttl.Logger.{TestLogger, log}
use kuttl.Kube.Errors.{Error, ok, err}
use kuttl.Kube.Objects.{Event, EventApi, events_v1, events_v1beta1, core_v1}
use kuttl.Kube.Outside.{Outside}
use kuttl.Events.{
  after_v1, after_beta1, after_core_v1, log_listed, by_first_timestamp, event_line, print_events,
  collect_events, collect_events_v1, collect_events_beta1, collect_events_core_v1, collect_and_log,
  heading, collect_failed,
}

by_first_timestamp-IsAsymmetric : IsAsymmetric by_first_timestamp
unfolding by_first_timestamp
by_first_timestamp-IsAsymmetric e f h = ground (arith, bytes_lt-IsAsymmetric e.name f.name)

-- An event that is not later than another, or as late, with a name that is not behind the other's.
abbrev pub NotLater : Event → Event → Type 0
NotLater e f = (e.creation < f.creation) ⊎ ((e.creation ≡ f.creation) × NotAfter e.name f.name)

abbrev pub InOrder : List Event → Type 0
InOrder [] = Unit
InOrder (e ∷ []) = Unit
InOrder (e ∷ f ∷ es) = NotLater e f × InOrder (f ∷ es)

by_first_timestamp-NotLater : (e f : Event) → by_first_timestamp f e ≡ false → NotLater e f
unfolding by_first_timestamp
by_first_timestamp-NotLater e f h = elim (Bool-cases (nat_eq f.creation e.creation)) [
  | inl same_time ↦ inr (ground arith, bytes_lt-NotAfter e.name f.name (ground arith))
  | inr other ↦ inl (ground arith)
]

IsSorted-InOrder : (es : List Event) → IsSorted by_first_timestamp es → InOrder es
IsSorted-InOrder [] h = tt
IsSorted-InOrder (e ∷ []) h = tt
IsSorted-InOrder (e ∷ f ∷ es) (h, hs) =
    (by_first_timestamp-NotLater e f h, IsSorted-InOrder (f ∷ es) hs)

-- The events, each as often as before, in order.
abbrev pub Ordered : List Event → List Event → Type 0
Ordered es sorted = InOrder sorted × ((p : Event → Bool) → count_if p sorted ≡ count_if p es)

sort-Ordered : (es : List Event) → Ordered es (sort by_first_timestamp es)
sort-Ordered es = (
  IsSorted-InOrder (sort by_first_timestamp es)
      (sort-IsSorted by_first_timestamp by_first_timestamp-IsAsymmetric es),
  λ p. count_if-sort by_first_timestamp p es,
)

-- The first of some versions of the API that answers in turn, and its events.
pub data Answered (o : Outside) (cl : o.Client) (namespace : Bytes)
    : List EventApi → o.World → List Event → o.World → Type 0 where
  first :
      {v : EventApi} {vs : List EventApi} {w w' : o.World} {es : List Event}
      → o.list_events cl v namespace w ≡ (ok es, w')
      → Answered o cl namespace (v ∷ vs) w es w'
  next :
      {v : EventApi} {vs : List EventApi} {w w1 w' : o.World} {e : Error} {es : List Event}
      → o.list_events cl v namespace w ≡ (err e, w1)
      → Answered o cl namespace vs w1 es w'
      → Answered o cl namespace (v ∷ vs) w es w'

four_lines :
    {A : Type 0} (l : List A) (a b c d : A)
    → (((l ++ (a ∷ [])) ++ (b ∷ [])) ++ (c ∷ [])) ++ (d ∷ []) ≡ l ++ (a ∷ b ∷ c ∷ d ∷ [])
four_lines l a b c d = simp append_assoc refl

module _ (o : Outside) where
  abbrev pub event_lines : Bytes → List Event → List (Bytes × Bytes)
  event_lines prefix es = map (λ e. (prefix, event_line o e)) es

  print_events-lines :
      (es : List Event) (l : TestLogger)
      → (print_events o es l).lines ≡ l.lines ++ event_lines l.prefix es
  unfolding print_events log
  print_events-lines [] l = sym (append-nil l.lines)
  print_events-lines (e ∷ es) l =
      print_events-lines es (log l (event_line o e)) ∙ append_assoc l.lines _ _

  module _ (cl : o.Client) (namespace case_name : Bytes) where
    collect_events-ok :
        {v : EventApi} {w w' : o.World} {es : List Event} (l : TestLogger)
        → o.list_events cl v namespace w ≡ (ok es, w')
        → collect_events o v cl namespace case_name l w ≡ (
          (none, print_events o (sort by_first_timestamp es) (log l (heading case_name namespace))),
          w',
        )
    unfolding collect_events log_listed
    collect_events-ok l h = rw h refl

    collect_events-err :
        {v : EventApi} {w w' : o.World} {e : Error} (l : TestLogger)
        → o.list_events cl v namespace w ≡ (err e, w')
        → collect_events o v cl namespace case_name l w
          ≡ ((some e, log l (collect_failed case_name namespace (o.error_text e))), w')
    unfolding collect_events log_listed
    collect_events-err l h = rw h refl

    abbrev pub EndsWith : TestLogger → TestLogger → List Event → Type 0
    EndsWith l l' es =
        (before : List (Bytes × Bytes)) × (sorted : List Event) × Ordered es sorted
        × (l'.lines ≡ l.lines ++ (before ++ event_lines l.prefix sorted))

    -- The events behind other lines.
    print_events-EndsWith :
        (l l' : TestLogger) (before : List (Bytes × Bytes)) (es : List Event)
        → l'.prefix ≡ l.prefix
        → l'.lines ≡ l.lines ++ before
        → EndsWith l
            (print_events o (sort by_first_timestamp es) (log l' (heading case_name namespace)))
            es
    unfolding log
    print_events-EndsWith l l' before es p h = (
      before ++ ((l.prefix, heading case_name namespace) ∷ []),
      sort by_first_timestamp es,
      sort-Ordered es,
      print_events-lines (sort by_first_timestamp es) (log l' (heading case_name namespace))
          ∙ rw (h, p) simp append_assoc refl,
    )

    -- If a version of the API answers, in the order events/v1, events/v1beta1 and core/v1, then
    -- the log gets at its end one line for each of the events of the first one that does, by their creation, and by their own names
    -- where this is the same, and the other versions are not asked.
    pub collect_and_log-events :
        {w w' : o.World} {es : List Event} (l : TestLogger)
        → Answered o cl namespace (events_v1 ∷ events_v1beta1 ∷ core_v1 ∷ []) w es w'
        → let (l', w'') = collect_and_log o cl namespace case_name l w in
          (w'' ≡ w') × EndsWith l l' es
    unfolding collect_and_log collect_events_v1 collect_events_beta1 collect_events_core_v1 after_v1
        after_beta1 after_core_v1 log
    collect_and_log-events {es = es} l (first h) =
        rw (collect_events-ok l h)
          (refl, print_events-EndsWith l l [] es refl (sym (append-nil l.lines)))
    collect_and_log-events {es = es} l (next h (first h2)) =
        rw (collect_events-err l h) rw (collect_events-ok _ h2)
          (refl, print_events-EndsWith l _ _ es refl (append_assoc l.lines _ _))
    collect_and_log-events {es = es} l (next h (next h2 (first h3))) =
        rw (collect_events-err l h) rw (collect_events-err _ h2) rw (collect_events-ok _ h3)
          (refl, print_events-EndsWith l _ _ es refl (four_lines l.lines _ _ _ _))
    collect_and_log-events l (next h (next h2 (next h3 none_left))) = elim none_left [ ]
