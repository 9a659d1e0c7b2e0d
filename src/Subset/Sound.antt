-- ===== src/Subset/Sound.antt =====
-- `deep_equal` and `is_subset` accept only subsets.
use kuttl.Common.{◌≡◌, refl, Bool, true, Option, none, arith, Option-cases}
use kuttl.Common.{inl, inr, string_eq, and_both}
use mathlib.Core.Path.{subst}
use kuttl.Common.{sym, ==→eq, ◌&&◌, ◌⊎◌}
use kuttl.Subset.{
  slice_type, map_type, items_of, SubsetError, Message, error_at_root, type_of, items_len,
}
use kuttl.Common.Int.{ℤ_eq}
use kuttl.Subset.{bool_eq, Value, Items, Fields, is_subset, deep_equal, compare_first, map_index}
use kuttl.Subset.{deep_equal_items, deep_equal_fields, subset_items, subset_fields, fields_of}
use kuttl.Subset.Spec.{Subset, SubsetItems, SubsetFields}

bool_eq→eq : (b c : Bool) → bool_eq b c ≡ true → b ≡ c
bool_eq→eq b c h = ground arith

mutual
  unfolding deep_equal

  deep_equal→Subset : (e a : Value) → deep_equal e a ≡ true → Subset e a
  deep_equal→Subset Value.null Value.null h = Subset.null
  deep_equal→Subset (Value.boolean b) (Value.boolean c) h =
      subst (λ d. Subset (Value.boolean b) (Value.boolean d)) (bool_eq→eq b c h) (Subset.boolean b)
  deep_equal→Subset (Value.int m) (Value.int n) h =
      subst (λ d. Subset (Value.int m) (Value.int d)) (==→eq m n h) (Subset.int m)
  deep_equal→Subset (Value.float x) (Value.float y) h = Subset.float h
  deep_equal→Subset (Value.string s) (Value.string t) h =
      subst (λ d. Subset (Value.string s) (Value.string d)) (==→eq s t h) (Subset.string s)
  deep_equal→Subset (Value.slice xs) (Value.slice ys) h =
      Subset.slice (deep_equal_items→Subset xs ys h)
  deep_equal→Subset (Value.map fs) (Value.map gs) h =
      Subset.map (deep_equal_fields→Subset fs gs (and_both _ _ h).1)
  deep_equal→Subset _ _ h = cc

  deep_equal_items→Subset : (xs ys : Items) → deep_equal_items xs ys ≡ true → SubsetItems xs ys
  deep_equal_items→Subset Items.nil Items.nil h = SubsetItems.nil
  deep_equal_items→Subset (Items.cons x xs) (Items.cons y ys) h =
      SubsetItems.cons (deep_equal→Subset x y (and_both _ _ h).0)
        (deep_equal_items→Subset xs ys (and_both _ _ h).1)
  deep_equal_items→Subset _ _ h = cc

  deep_equal_fields→Subset : (fs gs : Fields) → deep_equal_fields fs gs ≡ true → SubsetFields fs gs
  deep_equal_fields→Subset Fields.end gs h = SubsetFields.end
  deep_equal_fields→Subset (Fields.field k v fs) gs h = elim (Option-cases (map_index k gs)) [
    | inl e ↦ absurd (ground arith)
    | inr (w, e) ↦
        let h' : (deep_equal v w && deep_equal_fields fs gs) ≡ true = ground arith in
        SubsetFields.field e (deep_equal→Subset v w (and_both _ _ h').0)
          (deep_equal_fields→Subset fs gs (and_both _ _ h').1)
  ]

-- How `IsSubset` comes to return nil.
pub compare_first-none :
    (e a : Value) (rest : Option SubsetError)
    → compare_first e a rest ≡ none
    → (deep_equal e a ≡ true) ⊎ ((type_of e ≡ type_of a) × (rest ≡ none))
unfolding compare_first
compare_first-none e a rest h = ground arith

eq_slice : (a : Value) → slice_type ≡ type_of a → a ≡ Value.slice (items_of a)
unfolding type_of
eq_slice (Value.slice xs) h = refl
eq_slice _ h = cc

eq_map : (a : Value) → map_type ≡ type_of a → a ≡ Value.map (fields_of a)
unfolding type_of
eq_map (Value.map fs) h = refl
eq_map _ h = cc

-- A leaf passes the second test or fails.
leaf→Subset : (e a : Value) (m : Message) → compare_first e a (error_at_root m) ≡ none → Subset e a
leaf→Subset e a m h = elim (compare_first-none e a _ h) [
  | inl same ↦ deep_equal→Subset e a same
  | inr (_, bad) ↦ cc
]

mutual
  unfolding is_subset type_of items_len

  pub is_subset→Subset : (e a : Value) → is_subset e a ≡ none → Subset e a
  is_subset→Subset (Value.slice xs) a h = elim (compare_first-none (Value.slice xs) a _ h) [
    | inl same ↦ deep_equal→Subset (Value.slice xs) a same
    | inr (types, rest) ↦
        subst (λ b. Subset (Value.slice xs) b) (sym (eq_slice a types))
          (Subset.slice (subset_items→SubsetItems xs (items_of a) (ground arith) (ground arith)))
  ]
  is_subset→Subset (Value.map fs) a h = elim (compare_first-none (Value.map fs) a _ h) [
    | inl same ↦ deep_equal→Subset (Value.map fs) a same
    | inr (types, rest) ↦
        subst (λ b. Subset (Value.map fs) b) (sym (eq_map a types))
          (Subset.map (subset_fields→SubsetFields fs (fields_of a) rest))
  ]
  is_subset→Subset e a h = leaf→Subset e a _ h

  subset_items→SubsetItems :
      (xs ys : Items) → items_len xs ≡ items_len ys → subset_items xs ys ≡ none → SubsetItems xs ys
  subset_items→SubsetItems Items.nil Items.nil l h = SubsetItems.nil
  subset_items→SubsetItems (Items.cons x xs) (Items.cons y ys) l h =
      SubsetItems.cons (is_subset→Subset x y (ground arith))
        (subset_items→SubsetItems xs ys (omega arith) (ground arith))
  subset_items→SubsetItems _ _ l h = absurd (omega arith)

  subset_fields→SubsetFields : (fs gs : Fields) → subset_fields fs gs ≡ none → SubsetFields fs gs
  subset_fields→SubsetFields Fields.end gs h = SubsetFields.end
  subset_fields→SubsetFields (Fields.field k v fs) gs h = elim (Option-cases (map_index k gs)) [
    | inl e ↦ absurd (ground arith)
    | inr (w, e) ↦
        SubsetFields.field e (is_subset→Subset v w (ground arith))
          (subset_fields→SubsetFields fs gs (ground arith))
  ]
