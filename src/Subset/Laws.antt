-- ===== src/Subset/Laws.antt =====
-- `IsSubset` decides the documented relation, and what follows for assertions.
use mathlib.Core.Path.{subst}
use kuttl.Common.{ℕ, string_eq, ◌≡◌, ◌↔◌, String, true, none, some, arith}
use kuttl.Subset.{Value, Fields, is_subset, map_index, float_eq}
use kuttl.Subset.Spec.{Subset, SubsetItems, SubsetFields}
use kuttl.Subset.Sound.{is_subset→Subset}
use kuttl.Subset.Complete.{Subset→is_subset}
use kuttl.Subset.{Items}

-- `IsSubset` returns nil exactly when each leaf of `expected` equals the one of `actual`, slices
-- agree element by element, and each key of a map of `expected` is in the map of `actual`, with
-- a value that is a subset again. The order in which Go iterates over the map plays no part.
pub is_subset_iff : (e a : Value) → (is_subset e a ≡ none) ↔ Subset e a
is_subset_iff e a = (is_subset→Subset e a, Subset→is_subset)

SubsetFields-field :
    (k : String) (v : Value) {fs gs : Fields}
    → map_index k gs ≡ none
    → SubsetFields fs gs
    → SubsetFields fs (Fields.field k v gs)
unfolding map_index
SubsetFields-field k v h SubsetFields.end = SubsetFields.end
SubsetFields-field k v h (SubsetFields.field e s ss) =
    SubsetFields.field (ground arith) s (SubsetFields-field k v h ss)

pub map_fields : {fs gs : Fields} → Subset (Value.map fs) (Value.map gs) → SubsetFields fs gs
map_fields (Subset.map ss) = ss

-- A key that `actual` gains, and did not have, never breaks an assertion that holds.
pub is_subset-gain :
    (k : String) (v : Value) (fs gs : Fields)
    → map_index k gs ≡ none
    → is_subset (Value.map fs) (Value.map gs) ≡ none
    → is_subset (Value.map fs) (Value.map (Fields.field k v gs)) ≡ none
is_subset-gain k v fs gs fresh h =
    Subset→is_subset
      (Subset.map (SubsetFields-field k v fresh (map_fields (is_subset→Subset _ _ h))))

float_eq_trans : (x y z : ℕ) → float_eq x y ≡ true → float_eq y z ≡ true → float_eq x z ≡ true
unfolding float_eq
float_eq_trans x y z h k = ground arith

-- What a map that is a subset says of one of its keys.
value_of_key :
    (k : String) (v : Value) {fs gs : Fields}
    → SubsetFields fs gs
    → map_index k fs ≡ some v
    → (w : Value) × (map_index k gs ≡ some w) × Subset v w
unfolding map_index
value_of_key k v SubsetFields.end h = cc
value_of_key k v (SubsetFields.field {k = j} {v = u} {w} {fs} {gs} e s ss) h =
    elim (string_eq.dec k j) [
      | yes same ↦ let uv : u ≡ v = ground arith in (w, ground arith, subst (λ x. Subset x w) uv s)
      | no other ↦ let h' : map_index k fs ≡ some v = ground arith in value_of_key k v ss h'
    ]

mutual
  Subset-trans : {a b c : Value} → Subset a b → Subset b c → Subset a c
  Subset-trans Subset.null t = t
  Subset-trans (Subset.boolean b) t = t
  Subset-trans (Subset.int n) t = t
  Subset-trans (Subset.string s) t = t
  Subset-trans (Subset.float h) (Subset.float k) = Subset.float (float_eq_trans _ _ _ h k)
  Subset-trans (Subset.slice ss) (Subset.slice ts) = Subset.slice (SubsetItems-trans ss ts)
  Subset-trans (Subset.map ss) (Subset.map ts) = Subset.map (SubsetFields-trans ss ts)

  SubsetItems-trans : {a b c : Items} → SubsetItems a b → SubsetItems b c → SubsetItems a c
  SubsetItems-trans SubsetItems.nil t = t
  SubsetItems-trans (SubsetItems.cons s ss) (SubsetItems.cons t ts) =
      SubsetItems.cons (Subset-trans s t) (SubsetItems-trans ss ts)

  SubsetFields-trans : {a b c : Fields} → SubsetFields a b → SubsetFields b c → SubsetFields a c
  SubsetFields-trans SubsetFields.end t = SubsetFields.end
  SubsetFields-trans (SubsetFields.field {k} {w} e s ss) t =
      let (u, e', s') = value_of_key k w t e in
      SubsetFields.field e' (Subset-trans s s') (SubsetFields-trans ss t)

-- If one object passes as an assertion on a second, and the second on a third, then the first
-- passes as an assertion on the third.
is_subset_trans :
    (a b c : Value) → is_subset a b ≡ none → is_subset b c ≡ none → is_subset a c ≡ none
is_subset_trans a b c h k =
    Subset→is_subset (Subset-trans (is_subset→Subset a b h) (is_subset→Subset b c k))
