-- ===== src/Kube/Diff/Tests.antt =====
-- A serializer that writes ten lines for a list, and one for anything else.
use kuttl.Common.{◌≡◌, refl, none, [], ◌∷◌, string_eq}
use kuttl.Common.Int.{pos}
use kuttl.Common.Text.{Bytes}
use kuttl.Subset.{Fields, int, slice, nil, map, end, field, is_subset, map_index}
use kuttl.Kube.Errors.{ok}
use kuttl.Kube.Diff.{Printing, prune, elided}
use kuttl.Kube.Diff.Laws.{HasKeysOnce, FieldsOnce, is_subset-prune}

abbrev ten_lines : Bytes
ten_lines = 10 ∷ 10 ∷ 10 ∷ 10 ∷ 10 ∷ 10 ∷ 10 ∷ 10 ∷ 10 ∷ 10 ∷ []

abbrev lines_of : Fields → Bytes
lines_of (field k (slice xs) fs) = ten_lines
lines_of _ = 10 ∷ []

abbrev printing : Printing
printing = record {
  access = λ fs. none;
  clear_resource_version = λ fs. fs;
  clear_creation_timestamp = λ fs. fs;
  clear_self_link = λ fs. fs;
  clear_uid = λ fs. fs;
  clear_generation = λ fs. fs;
  get_annotations = λ fs. [];
  set_annotations = λ annotations fs. fs;
  encode = λ fs. ok (lines_of fs);
  split_lines = λ text. text ∷ [];
  unified_diff = λ d. ok d.to_file;
}

abbrev status : Fields
status = field "replicas" (int (pos 1)) end

-- {"spec": [], "status": {"conditions": [], "replicas": 1}}
abbrev actual : Fields
actual = field "spec" (slice nil) (field "status" (map (field "conditions" (slice nil) status)) end)

-- {"status": {"replicas": 2}}
abbrev expected : Fields
expected = field "status" (map (field "replicas" (int (pos 2)) end)) end

abbrev pruned : Fields
pruned = field "spec" elided (field "status" (map (field "conditions" elided status)) end)

long_fields_elided : prune printing expected actual ≡ pruned
unfolding prune string_eq
long_fields_elided = refl

is_subset-prune_example :
    is_subset (map expected) (map (prune printing expected actual))
    ≡ is_subset (map expected) (map actual)
unfolding map_index
is_subset-prune_example = is_subset-prune printing expected actual (
    FieldsOnce.field refl
      (HasKeysOnce.map (FieldsOnce.field refl (HasKeysOnce.leaf refl) FieldsOnce.end))
      FieldsOnce.end)
