-- ===== src/Kube/Diff.antt =====
-- internal/kubernetes/serialization.go: `PrettyDiff`, which shows how an object differs from an assertion, with
-- `prune`, `countLines`, `cleanObjectForMarshalling` and `marshalObject`. The metadata accessor, the YAML serializer and the
-- library of differences are the record `Printing`.
pub mod Laws
mod Tests
use kuttl.Common.{
  ℕ, suc, String, Bool, true, false, Option, none, some, List, [], ◌∷◌, ◌++◌, if◌then◌else◌, nat_eq,
  ltb, string_eq, ◌==◌,
}
use kuttl.Common.Text.{Bytes, codes}
use kuttl.Common.Dict.{Dict}
use kuttl.Subset.{Value, Fields, map, string, end, field, fields_of, map_index}
use kuttl.Kube.Errors.{Error, Result, ok, err, wrapped, wrapping}
use kuttl.Kube.Objects.{Object, resource_id}

-- The input of the library of differences.
pub record UnifiedDiff : Type 0 where
  pub a : List Bytes
  pub b : List Bytes
  pub from_file : Bytes
  pub to_file : Bytes
  pub context : ℕ

-- What works on the content of an unstructured object.
pub record Printing : Type 0 where
  -- `meta.Accessor`, and the methods of what it returns, at the empty values
  pub access : Fields → Option Error
  pub clear_resource_version : Fields → Fields
  pub clear_creation_timestamp : Fields → Fields
  pub clear_self_link : Fields → Fields
  pub clear_uid : Fields → Fields
  pub clear_generation : Fields → Fields
  pub get_annotations : Fields → Dict String String
  -- `none` is nil
  pub set_annotations : Option (Dict String String) → Fields → Fields
  -- `Encode` of the YAML serializer
  pub encode : Fields → Result Bytes
  -- `difflib.SplitLines` and `GetUnifiedDiffString`
  pub split_lines : Bytes → List Bytes
  pub unified_diff : UnifiedDiff → Result Bytes

-- `strings.Count` of a line feed.
unfoldable pub count_line_feeds : Bytes → ℕ
count_line_feeds [] = 0
count_line_feeds (c ∷ s) = let rest = count_line_feeds s in if nat_eq c 10 then suc rest else rest

-- `delete`
unfoldable pub delete : String → Dict String String → Dict String String
unfolding string_eq
delete k [] = []
delete k ((j, v) ∷ d) = if k == j then delete k d else (j, v) ∷ delete k d

abbrev pub annotations_or_nil : Dict String String → Option (Dict String String)
annotations_or_nil [] = none
annotations_or_nil (a ∷ d) = some (a ∷ d)

-- `maxLines`, and the text in place of a field that has so many
abbrev pub max_lines : ℕ
max_lines = 10

abbrev pub elided : Value
elided = string "[... elided field over 10 lines long ...]"

module _ (p : Printing) where
  -- `cleanObjectForMarshalling`
  unfoldable pub clean_object_for_marshalling : Fields → Result Fields
  unfolding delete
  clean_object_for_marshalling fs = elim (p.access fs) [
    | some e ↦ err e
    | none ↦
        let cleared = p.clear_generation (
          p.clear_uid
            (p.clear_self_link (p.clear_creation_timestamp (p.clear_resource_version fs)))) in
        ok (
          p.set_annotations
            (annotations_or_nil
              (delete "deployment.kubernetes.io/revision" (p.get_annotations cleared)))
            cleared)
  ]

  unfoldable pub marshal_object : Fields → Result Bytes
  unfolding clean_object_for_marshalling
  marshal_object fs = elim (clean_object_for_marshalling fs) [
    | err e ↦ err e
    | ok copied ↦ p.encode copied
  ]

  unfoldable pub count_lines : String → Value → Result ℕ
  unfolding marshal_object count_line_feeds
  count_lines k v = elim (marshal_object (field k v end)) [
    | err e ↦ err (
        wrapped
          (wrapping
            (codes "cannot marshal field " ++ (codes k ++ codes " to compute its length in lines")))
          e)
    | ok text ↦ ok (count_line_feeds text)
  ]

  -- A field that the assertion does not have.
  unfoldable pub shortened : String → Value → Value
  unfolding count_lines
  shortened k v = elim (count_lines k v) [
    | err e ↦ v
    | ok lines ↦ if ltb lines max_lines then v else elided
  ]

  -- `prune` returns what it leaves of `actual`. Its loop only changes the field at hand.
  unfoldable mutual
    unfolding shortened map_index

    pub prune : Fields → Fields → Fields
    prune expected end = end
    prune expected (field k v actual) =
        field k (elim (map_index k expected) [ none ↦ shortened k v | some e ↦ prune_value e v ])
          (prune expected actual)

    -- A field that the assertion has.
    pub prune_value : Value → Value → Value
    prune_value (map expected) (map actual) = map (prune expected actual)
    prune_value e v = v

  -- `pruneLargeAdditions`
  unfoldable pub prune_large_additions : Object → Object → Fields
  unfolding prune
  prune_large_additions expected actual =
      prune (fields_of expected.content) (fields_of actual.content)

  abbrev pub diff_of : Object → Object → Bytes → Bytes → UnifiedDiff
  diff_of expected actual a b = record {
    a = p.split_lines a;
    b = p.split_lines b;
    from_file = resource_id expected;
    to_file = resource_id actual;
    context = 3;
  }

  unfoldable pub pretty_diff : Object → Object → Result Bytes
  unfolding prune_large_additions marshal_object
  pretty_diff expected actual = elim (marshal_object (fields_of expected.content)) [
    | err e ↦ err e
    | ok a ↦ elim (marshal_object (prune_large_additions expected actual)) [
      | err e ↦ err e
      | ok b ↦ p.unified_diff (diff_of expected actual a b)
    ]
  ]
