-- ===== src/File/Tests.antt =====
-- Names of files, and the theorems at them.
use kuttl.Common.{true, false, none, some, ◌∷◌, ◌++◌, ◌≡◌, refl, arith, ◌==◌}
use kuttl.Common.Text.{codes, text_eq}
use kuttl.File.{
  apply, error, parse, type_of_name, index_out_of_range, no_pattern, template_extension,
}
use kuttl.File.Laws.{IsIndex, IsName, IsRest, dashed, template, stem, parse-file_name}
use kuttl.File.Bounds.{InBounds, parse-InBounds}

error_file : (parse (codes "tests/01-errors.yaml")).file_type ≡ error
unfolding parse text_eq
error_file = refl

no_index : (parse (codes "foo-bar.yaml")).has_index ≡ false
unfolding parse text_eq
no_index = refl

two_dots : (parse (codes "00-foo.bar.yaml")).failure ≡ some no_pattern
unfolding parse text_eq
two_dots = refl

large_index : (parse (codes "2147483648-foo.yaml")).failure ≡ some index_out_of_range
unfolding parse text_eq
large_index = refl

zero_one-IsIndex : IsIndex (codes "01")
zero_one-IsIndex = record { given = refl; all_digits = (refl, (refl, tt)); in_range = omega arith }

assert-IsName : IsName (codes "assert")
assert-IsName = record {
  given = refl;
  no_dash = (refl, (refl, (refl, (refl, (refl, (refl, tt))))));
  no_dot = (refl, (refl, (refl, (refl, (refl, (refl, tt))))));
  no_slash = (refl, (refl, (refl, (refl, (refl, (refl, tt))))));
}

dash_a-IsRest : IsRest (codes "-a")
dash_a-IsRest = dashed (refl, tt) (refl, tt)

parse-file_name_example :
    let info = parse (
      codes "t"
      ++ (b'/' ∷ (stem (codes "01") (codes "assert") (codes "-a") ++ template_extension))) in
    (info.failure ≡ none)
    × (info.base_name ≡ stem (codes "01") (codes "assert") (codes "-a") ++ template_extension)
    × (info.has_index ≡ true)
    × (info.index ≡ 1)
    × (info.file_type ≡ type_of_name (codes "assert"))
    × (type_of_name (codes "assert") ≡ apply → info.step_name ≡ codes "assert" ++ codes "-a")
    × (info.is_template ≡ (template_extension == template_extension))
parse-file_name_example =
    parse-file_name (codes "t") (codes "01") (codes "assert") (codes "-a") template_extension
      zero_one-IsIndex assert-IsName dash_a-IsRest template

parse-InBounds_example : InBounds (parse (codes "2147483648-foo.yaml"))
parse-InBounds_example = parse-InBounds (codes "2147483648-foo.yaml")
