-- ===== src/Subset/Tests.antt =====
-- Runs of `IsSubset` on the cases of subset_test.go, and the theorems at concrete objects.
use kuttl.Common.{◌≡◌, refl, Option, none, some, [], ◌∷◌, ◌↔◌, string_eq}
use kuttl.Common.Int.{pos, ℤ_eq}
use kuttl.Subset.{Value, Fields, SubsetError, key_missing, value_mismatch, int, string, map}
use kuttl.Subset.{slice, nil, cons, end, field, is_subset, printed_path, deep_equal}
use kuttl.Subset.{type_of, GoType_eq, compare_first, slice_length_mismatch, append_path}
use kuttl.Subset.Spec.{Subset}
use kuttl.Subset.Laws.{is_subset_iff}
use kuttl.Subset.Path.{Odds, is_subset_error_points}

-- {"hello": "world"} and {"hello": "world", "bye": "moon"}
abbrev one_key : Fields
one_key = field "hello" (string "world") end

abbrev two_keys : Fields
two_keys = field "bye" (string "moon") one_key

abbrev nested_expected : Value
nested_expected = map (field "spec" (map (field "replicas" (int (pos 2)) end)) end)

abbrev nested_actual : Value
nested_actual = map (field "spec" (map (field "replicas" (int (pos 1)) end)) end)

abbrev nested_error : SubsetError
nested_error = record {
  path = "replicas" ∷ "spec" ∷ [];
  message = value_mismatch (int (pos 2)) (int (pos 1));
}

-- `IsSubset`, opened for the tests.
run : Value → Value → Option SubsetError
unfolding is_subset compare_first type_of GoType_eq deep_equal append_path string_eq
run = is_subset

extra_key : is_subset (map one_key) (map two_keys) ≡ none
unfolding run
extra_key = refl

missing_key :
    is_subset (map two_keys) (map one_key)
    ≡ some (record { path = "bye" ∷ []; message = key_missing })
unfolding run
missing_key = refl

nested : is_subset nested_expected nested_actual ≡ some nested_error
unfolding run
nested = refl

nested_printed : printed_path nested_error ≡ ".spec.replicas"
unfolding printed_path
nested_printed = refl

slice_lengths :
    is_subset (slice (cons (int (pos 1)) nil)) (slice nil)
    ≡ some (record { path = []; message = slice_length_mismatch 1 0 })
unfolding run
slice_lengths = refl

is_subset_iff_example :
    (is_subset (map one_key) (map two_keys) ≡ none) ↔ Subset (map one_key) (map two_keys)
is_subset_iff_example = is_subset_iff (map one_key) (map two_keys)

is_subset_error_points_example :
    Odds nested_expected nested_actual nested_error.path nested_error.message
is_subset_error_points_example =
    is_subset_error_points nested_expected nested_actual nested_error nested
