-- ===== src/Kube/Diff/Laws.antt =====
-- Pruning an object for a difference does not change what is said of it.
use kuttl.Common.{
  String, Bool, true, false, Option, none, some, ◌≡◌, refl, sym, ap, ◌∙◌, Bool-cases, inl, inr,
  arith, Option-cases, string_eq,
}
use mathlib.Core.Path.{subst}
use kuttl.Subset.{
  Value, Fields, SubsetError, is_subset, subset_fields, deep_equal, map_index, type_of,
  compare_first,
}
use kuttl.Subset.Laws.{map_fields}
use kuttl.Subset.Sound.{is_subset→Subset}
use kuttl.Subset.Complete.{SubsetFields→subset_fields, compare_first-equal}
use kuttl.Kube.Diff.{Printing, prune, prune_value}

abbrev pub is_map : Value → Bool
is_map (Value.map fs) = true
is_map _ = false

-- The maps, one within the other, have each key once, as Go's do.
mutual
  pub data HasKeysOnce : Value → Type 0 where
    leaf : {v : Value} → is_map v ≡ false → HasKeysOnce v
    map : {fs : Fields} → FieldsOnce fs → HasKeysOnce (Value.map fs)

  pub data FieldsOnce : Fields → Type 0 where
    end : FieldsOnce Fields.end
    field :
        {k : String} {v : Value} {fs : Fields}
        → map_index k fs ≡ none
        → HasKeysOnce v
        → FieldsOnce fs
        → FieldsOnce (Fields.field k v fs)

-- Fields with their values in a map.
data AreFields (es : Fields) : Fields → Type 0 where
  end : AreFields es Fields.end
  field :
      {k : String} {v : Value} {fs : Fields}
      → map_index k es ≡ some v
      → AreFields es fs
      → AreFields es (Fields.field k v fs)

AreFields-grow :
    {k : String} {v : Value} {es fs : Fields}
    → map_index k es ≡ none
    → AreFields es fs
    → AreFields (Fields.field k v es) fs
unfolding map_index
AreFields-grow h AreFields.end = AreFields.end
AreFields-grow h (AreFields.field e fs) = AreFields.field (ground arith) (AreFields-grow h fs)

AreFields-self : {fs : Fields} → FieldsOnce fs → AreFields fs fs
unfolding map_index
AreFields-self FieldsOnce.end = AreFields.end
AreFields-self (FieldsOnce.field e v d) =
    AreFields.field (ground arith) (AreFields-grow e (AreFields-self d))

compare_first-unequal :
    (e a : Value) (rest : Option SubsetError)
    → type_of e ≡ type_of a
    → deep_equal e a ≡ false
    → compare_first e a rest ≡ rest
unfolding compare_first
compare_first-unequal e a rest t d = ground arith

-- Of two maps, the test for equality that IsSubset makes first only saves it work.
is_subset-subset_fields :
    (fs gs : Fields) → is_subset (Value.map fs) (Value.map gs) ≡ subset_fields fs gs
unfolding is_subset type_of
is_subset-subset_fields fs gs = elim (Bool-cases (deep_equal (Value.map fs) (Value.map gs))) [
  | inl same ↦
      let passes =
        compare_first-equal (Value.map fs) (Value.map gs) (subset_fields fs gs) refl same in
      passes
      ∙ sym (
          SubsetFields→subset_fields
            (map_fields (is_subset→Subset (Value.map fs) (Value.map gs) passes)))
  | inr other ↦ compare_first-unequal (Value.map fs) (Value.map gs) (subset_fields fs gs) refl other
]

module _ (p : Printing) where
  prune_value-leaf : (e a : Value) → is_map e ≡ false → prune_value p e a ≡ a
  unfolding prune_value
  prune_value-leaf (Value.map es) a h = cc
  prune_value-leaf _ a h = refl

  map_index-prune-none :
      (k : String) (es gs : Fields) → map_index k gs ≡ none → map_index k (prune p es gs) ≡ none
  unfolding map_index prune
  map_index-prune-none k es Fields.end h = refl
  map_index-prune-none k es (Fields.field j v gs) h = ground (arith, map_index-prune-none k es gs)

  prune-field :
      (j : String) (e v : Value) (es gs : Fields)
      → map_index j es ≡ some e
      → prune p es (Fields.field j v gs) ≡ Fields.field j (prune_value p e v) (prune p es gs)
  unfolding prune
  prune-field j e v es gs h = rw h refl

  -- The first field of a map.
  map_index-here :
      (k j : String) (v : Value) (gs : Fields) → k ≡ j → map_index k (Fields.field j v gs) ≡ some v
  unfolding map_index
  map_index-here k j v gs same = ground arith

  some-injective : (v w : Value) → some v ≡ some w → v ≡ w
  some-injective v w h = ground arith

  map_index-prune-some :
      (k : String) (e w : Value) (es gs : Fields)
      → map_index k es ≡ some e
      → map_index k gs ≡ some w
      → map_index k (prune p es gs) ≡ some (prune_value p e w)
  unfolding map_index prune
  map_index-prune-some k e w es Fields.end h h' = cc
  map_index-prune-some k e w es (Fields.field j v gs) h h' = elim (string_eq.dec k j) [
    | yes same ↦
        let h1 : map_index j es ≡ some e = subst (λ i. map_index i es ≡ some e) same h in
        let q : prune p es (Fields.field j v gs)
            ≡ Fields.field j (prune_value p e v) (prune p es gs) =
          prune-field j e v es gs h1 in
        let r : map_index k (Fields.field j (prune_value p e v) (prune p es gs))
            ≡ some (prune_value p e v) =
          map_index-here k j (prune_value p e v) (prune p es gs) same in
        let vw : v ≡ w = some-injective v w (sym (map_index-here k j v gs same) ∙ h') in
        ap (map_index k) q ∙ (r ∙ ap (λ x. some (prune_value p e x)) vw)
    | no other ↦ let rest = map_index-prune-some k e w es gs h in ground arith
  ]

  mutual
    unfolding subset_fields prune_value

    is_subset-prune_value :
        (e a : Value) → HasKeysOnce e → is_subset e a ≡ is_subset e (prune_value p e a)
    is_subset-prune_value e a (HasKeysOnce.leaf h) = ap (is_subset e) (sym (prune_value-leaf e a h))
    is_subset-prune_value (Value.map es) (Value.map gs) (HasKeysOnce.map d) =
        is_subset-subset_fields es gs
        ∙ (subset_fields-prune es es gs d (AreFields-self d)
            ∙ sym (is_subset-subset_fields es (prune p es gs)))
    is_subset-prune_value (Value.map es) _ (HasKeysOnce.map d) = refl

    subset_fields-prune :
        (fs es gs : Fields)
        → FieldsOnce fs
        → AreFields es fs
        → subset_fields fs gs ≡ subset_fields fs (prune p es gs)
    subset_fields-prune fs es gs FieldsOnce.end AreFields.end = refl
    subset_fields-prune (Fields.field k v fs) es gs (FieldsOnce.field fresh once d)
          (AreFields.field e a) =
        elim (Option-cases (map_index k gs)) [
          | inl h ↦ let h' = map_index-prune-none k es gs h in ground arith
          | inr (w, h) ↦
              let h' = map_index-prune-some k v w es gs e h in
              let same = is_subset-prune_value v w once in
              let rest = subset_fields-prune fs es gs d a in ground arith
        ]

  -- Within an assertion whose maps have each key once, IsSubset gives the same answer for the pruned
  -- object that a difference shows as for the object itself, the error and its path included.
  pub is_subset-prune :
      (es gs : Fields)
      → FieldsOnce es
      → is_subset (Value.map es) (Value.map (prune p es gs))
        ≡ is_subset (Value.map es) (Value.map gs)
  unfolding prune_value
  is_subset-prune es gs d =
      sym (is_subset-prune_value (Value.map es) (Value.map gs) (HasKeysOnce.map d))
