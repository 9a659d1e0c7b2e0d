-- ===== src/Subset/Complete.antt =====
-- `is_subset` accepts every subset.
use kuttl.Common.{◌≡◌, refl, Bool, true, false, string_eq, Option, none, arith, ==_refl}
use kuttl.Common.Int.{ℤ_eq}
use kuttl.Subset.{Value, Items, Fields, SubsetError, is_subset, deep_equal, compare_first, type_of}
use kuttl.Subset.{bool_eq, subset_items, subset_fields, items_len}
use kuttl.Subset.Spec.{Subset, SubsetItems, SubsetFields}

pub compare_first-equal :
    (e a : Value) (rest : Option SubsetError)
    → type_of e ≡ type_of a
    → deep_equal e a ≡ true
    → compare_first e a rest ≡ none
unfolding compare_first
compare_first-equal e a rest t d = ground arith

compare_first-rest :
    (e a : Value) (rest : Option SubsetError)
    → type_of e ≡ type_of a
    → rest ≡ none
    → compare_first e a rest ≡ none
unfolding compare_first
compare_first-rest e a rest t d = ground arith

bool_eq_refl : (b : Bool) → bool_eq b b ≡ true
bool_eq_refl true = refl
bool_eq_refl false = refl

items_len-eq : {xs ys : Items} → SubsetItems xs ys → items_len xs ≡ items_len ys
unfolding items_len
items_len-eq SubsetItems.nil = refl
items_len-eq (SubsetItems.cons s ss) = omega (arith, items_len-eq ss)

mutual
  unfolding is_subset type_of deep_equal

  pub Subset→is_subset : {e a : Value} → Subset e a → is_subset e a ≡ none
  Subset→is_subset Subset.null = compare_first-equal _ _ _ refl refl
  Subset→is_subset (Subset.boolean b) = compare_first-equal _ _ _ refl (bool_eq_refl b)
  Subset→is_subset (Subset.int n) = compare_first-equal _ _ _ refl (==_refl n)
  Subset→is_subset (Subset.float h) = compare_first-equal _ _ _ refl h
  Subset→is_subset (Subset.string s) = compare_first-equal _ _ _ refl (==_refl s)
  Subset→is_subset (Subset.slice {xs} {ys} ss) =
      compare_first-rest (Value.slice xs) (Value.slice ys) _ refl
        (ground (arith, items_len-eq ss, SubsetItems→subset_items ss))
  Subset→is_subset (Subset.map {fs} {gs} ss) =
      compare_first-rest (Value.map fs) (Value.map gs) _ refl (SubsetFields→subset_fields ss)

  SubsetItems→subset_items : {xs ys : Items} → SubsetItems xs ys → subset_items xs ys ≡ none
  SubsetItems→subset_items SubsetItems.nil = refl
  SubsetItems→subset_items (SubsetItems.cons s ss) =
      ground (arith, Subset→is_subset s, SubsetItems→subset_items ss)

  pub SubsetFields→subset_fields :
      {fs gs : Fields} → SubsetFields fs gs → subset_fields fs gs ≡ none
  SubsetFields→subset_fields SubsetFields.end = refl
  SubsetFields→subset_fields (SubsetFields.field e s ss) =
      ground (arith, e, Subset→is_subset s, SubsetFields→subset_fields ss)
