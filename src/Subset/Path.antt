-- ===== src/Subset/Path.antt =====
-- Which values a `SubsetError` is about, and how its path is printed.
use mathlib.Core.List.{reverse-append}
use mathlib.Core.Path.{subst}
use kuttl.Common.{
  String, ◌<>◌, ◌≡◌, true, false, Option, none, some, List, [], ◌∷◌, ◌++◌, refl, arith,
  Option-cases, Bool-cases, inl, inr, ◌⊎◌, nat_eq, ◌==◌,
}
use kuttl.Subset.{
  Value, Items, Fields, SubsetError, Message, type_mismatch, slice_length_mismatch, key_missing,
  value_mismatch, GoType_eq, type_of, items_of, items_len, fields_of, deep_equal, append_path,
  printed_path, map_index, is_subset, subset_items, subset_fields, compare_first, error_at_root,
}

-- An entry of a map.
pub data Entry (k : String) (v : Value) : Fields → Type 0 where
  here : {fs : Fields} → Entry k v (Fields.field k v fs)
  there : {j : String} {w : Value} {fs : Fields} → Entry k v fs → Entry k v (Fields.field j w fs)

-- Elements of two slices at one index.
pub data Elements (v w : Value) : Items → Items → Type 0 where
  first : {xs ys : Items} → Elements v w (Items.cons v xs) (Items.cons w ys)
  later :
      {x y : Value} {xs ys : Items}
      → Elements v w xs ys
      → Elements v w (Items.cons x xs) (Items.cons y ys)

-- A value that is no map and no slice.
abbrev IsScalar : Value → Type 0
IsScalar (Value.slice xs) = ⊥
IsScalar (Value.map fs) = ⊥
IsScalar _ = Unit

-- Two values that are at odds inside, with the keys on the way, innermost first, and what is wrong there. An
-- index of a slice leaves no mark.
pub data Odds : Value → Value → List String → Message → Type 0 where
  types :
      {e a : Value}
      → (type_of e == type_of a) ≡ false
      → Odds e a [] (type_mismatch (type_of e) (type_of a))
  values : {e a : Value} → IsScalar e → deep_equal e a ≡ false → Odds e a [] (value_mismatch e a)
  lengths :
      {xs ys : Items}
      → nat_eq (items_len xs) (items_len ys) ≡ false
      → Odds
          (Value.slice xs)
          (Value.slice ys)
          []
          (slice_length_mismatch (items_len xs) (items_len ys))
  missing :
      {k : String} {v : Value} {fs gs : Fields}
      → Entry k v fs
      → map_index k gs ≡ none
      → Odds (Value.map fs) (Value.map gs) (k ∷ []) key_missing
  element :
      {xs ys : Items} {v w : Value} {p : List String} {m : Message}
      → Elements v w xs ys
      → Odds v w p m
      → Odds (Value.slice xs) (Value.slice ys) p m
  entry :
      {k : String} {fs gs : Fields} {v w : Value} {p : List String} {m : Message}
      → Entry k v fs
      → map_index k gs ≡ some w
      → Odds v w p m
      → Odds (Value.map fs) (Value.map gs) (p ++ (k ∷ [])) m

abbrev AtOdds : Value → Value → SubsetError → Type 0
AtOdds e a err = Odds e a err.path err.message

-- What is left when the first tests have not given the error.
compare_first-some :
    (e a : Value) (rest : Option SubsetError) (err : SubsetError)
    → compare_first e a rest ≡ some err
    → AtOdds e a err
      ⊎ (((type_of e == type_of a) ≡ true) × (deep_equal e a ≡ false) × (rest ≡ some err))
unfolding compare_first
compare_first-some e a rest err h = elim (Bool-cases (type_of e == type_of a)) [
  | inr differ ↦
      let same : record { path = []; message = type_mismatch (type_of e) (type_of a) } ≡ err =
        ground arith in
      inl (subst (AtOdds e a) same (types differ))
  | inl agree ↦ inr (agree, ground arith, ground arith)
]

slice_of :
    (xs : Items) (a : Value)
    → (type_of (Value.slice xs) == type_of a) ≡ true
    → Value.slice (items_of a) ≡ a
unfolding type_of GoType_eq
slice_of xs (Value.slice ys) h = refl
slice_of xs Value.null h = ground arith
slice_of xs (Value.boolean b) h = ground arith
slice_of xs (Value.int n) h = ground arith
slice_of xs (Value.float x) h = ground arith
slice_of xs (Value.string s) h = ground arith
slice_of xs (Value.map fs) h = ground arith

map_of :
    (fs : Fields) (a : Value)
    → (type_of (Value.map fs) == type_of a) ≡ true
    → Value.map (fields_of a) ≡ a
unfolding type_of GoType_eq
map_of fs (Value.map gs) h = refl
map_of fs Value.null h = ground arith
map_of fs (Value.boolean b) h = ground arith
map_of fs (Value.int n) h = ground arith
map_of fs (Value.float x) h = ground arith
map_of fs (Value.string s) h = ground arith
map_of fs (Value.slice ys) h = ground arith

scalar-AtOdds :
    (e a : Value) (err : SubsetError)
    → IsScalar e
    → compare_first e a (error_at_root (value_mismatch e a)) ≡ some err
    → AtOdds e a err
scalar-AtOdds e a err scalar h = elim (compare_first-some e a _ err h) [
  | inl odds ↦ odds
  | inr (agree, differ, rest) ↦
      let same : record { path = []; message = value_mismatch e a } ≡ err = ground arith in
      subst (AtOdds e a) same (values scalar differ)
]

mutual
  unfolding is_subset append_path

  is_subset-AtOdds : (e a : Value) (err : SubsetError) → is_subset e a ≡ some err → AtOdds e a err
  is_subset-AtOdds (Value.slice xs) a err h = elim (compare_first-some _ a _ err h) [
    | inl odds ↦ odds
    | inr (agree, differ, rest) ↦
        subst (λ v. AtOdds (Value.slice xs) v err) (slice_of xs a agree)
          (elim (Bool-cases (nat_eq (items_len xs) (items_len (items_of a)))) [
            | inl same ↦
                let (v, w, at, odds) = elements-AtOdds xs (items_of a) err (ground arith) in
                element at odds
            | inr other ↦
                let same : record {
                  path = [];
                  message = slice_length_mismatch (items_len xs) (items_len (items_of a));
                }
                    ≡ err =
                  ground arith in
                subst (AtOdds (Value.slice xs) (Value.slice (items_of a))) same (lengths other)
          ])
  ]
  is_subset-AtOdds (Value.map fs) a err h = elim (compare_first-some _ a _ err h) [
    | inl odds ↦ odds
    | inr (agree, differ, rest) ↦
        subst (λ v. AtOdds (Value.map fs) v err) (map_of fs a agree)
          (fields-AtOdds fs fs (fields_of a) err (λ k v at. at) rest)
  ]
  is_subset-AtOdds Value.null a err h = scalar-AtOdds Value.null a err tt h
  is_subset-AtOdds (Value.boolean b) a err h = scalar-AtOdds (Value.boolean b) a err tt h
  is_subset-AtOdds (Value.int n) a err h = scalar-AtOdds (Value.int n) a err tt h
  is_subset-AtOdds (Value.float x) a err h = scalar-AtOdds (Value.float x) a err tt h
  is_subset-AtOdds (Value.string s) a err h = scalar-AtOdds (Value.string s) a err tt h

  elements-AtOdds :
      (xs ys : Items) (err : SubsetError)
      → subset_items xs ys ≡ some err
      → (v : Value) × (w : Value) × Elements v w xs ys × AtOdds v w err
  elements-AtOdds (Items.cons x xs) (Items.cons y ys) err h = elim (Option-cases (is_subset x y)) [
    | inl fine ↦
        let (v, w, at, odds) = elements-AtOdds xs ys err (ground arith) in
        (v, w, Elements.later at, odds)
    | inr (e, bad) ↦ (x, y, Elements.first, is_subset-AtOdds x y err (ground arith))
  ]
  elements-AtOdds _ _ err h = cc

  fields-AtOdds :
      (all fs gs : Fields) (err : SubsetError)
      → ((k : String) (v : Value) → Entry k v fs → Entry k v all)
      → subset_fields fs gs ≡ some err
      → AtOdds (Value.map all) (Value.map gs) err
  fields-AtOdds all Fields.end gs err within h = cc
  fields-AtOdds all (Fields.field k v fs) gs err within h = elim (Option-cases (map_index k gs)) [
    | inl absent ↦
        let same : record { path = k ∷ []; message = key_missing } ≡ err = ground arith in
        subst (AtOdds (Value.map all) (Value.map gs)) same (missing (within k v Entry.here) absent)
    | inr (w, found) ↦ elim (Option-cases (is_subset v w)) [
      | inl fine ↦
          fields-AtOdds all fs gs err (λ j u at. within j u (Entry.there at)) (ground arith)
      | inr (inner, bad) ↦
          let same : record { path = inner.path ++ (k ∷ []); message = inner.message } ≡ err =
            ground arith in
          subst (AtOdds (Value.map all) (Value.map gs)) same
            (entry (within k v Entry.here) found (is_subset-AtOdds v w inner bad))
    ]
  ]

-- An error of `IsSubset` tells where the two values are at odds, and how: its path leads, by the keys that it
-- holds, through maps, and through elements of slices at the same index, to two values of different types, to
-- two slices of different lengths, to two other values that differ, or to a key that the actual map does not have, and its
-- message names these.
pub is_subset_error_points :
    (e a : Value) (err : SubsetError) → is_subset e a ≡ some err → Odds e a err.path err.message
is_subset_error_points = is_subset-AtOdds

-- The keys are printed from the root: each enclosing key stands in front of what it encloses.
pub printed_path-append_path :
    (k : String) (e : SubsetError) → printed_path (append_path k e) ≡ "." <> (k <> printed_path e)
unfolding printed_path append_path
printed_path-append_path k e = rw (reverse-append e.path (k ∷ []))
