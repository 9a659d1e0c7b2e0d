-- ===== src/File/Laws.antt =====
-- Names that are put together are taken apart again.
use mathlib.Core.List.{append-nil}
use kuttl.Common.{
  ℕ, ◌<◌, ◌^◌, true, false, none, some, [], ◌∷◌, ◌++◌, ◌≡◌, refl, arith, All, nat_eq, ◌==◌,
}
use kuttl.Common.Text.{Bytes, is_empty, text_eq, base}
use kuttl.Common.Text.Laws.{Lacks, Lacks-append, base_path}
use kuttl.Env.{is_digit}
use kuttl.File.{
  step_name_of, apply, is_extension, match_behind, Groups, split_before, split_digits, match_name,
  match_index, match_file_name, digits_value, parse_int32, info_of, matched_info, indexed_info,
  parse, yaml_extension, template_extension, type_of_name,
}

split_before_end : (b : ℕ) (s : Bytes) → Lacks b s → split_before b s ≡ (s, [])
unfolding split_before
split_before_end b [] h = refl
split_before_end b (c ∷ s) (h, hs) = rw (h, split_before_end b s hs) refl

split_before_byte : (b : ℕ) (s t : Bytes) → Lacks b s → split_before b (s ++ (b ∷ t)) ≡ (s, b ∷ t)
unfolding split_before
split_before_byte b [] t h = ground arith
split_before_byte b (c ∷ s) t (h, hs) = rw (h, split_before_byte b s t hs) refl

split_digits_dash :
    (ds t : Bytes)
    → All (λ c. is_digit c ≡ true) ds
    → split_digits (ds ++ (b'-' ∷ t)) ≡ (ds, b'-' ∷ t)
unfolding split_digits
split_digits_dash [] t h = refl
split_digits_dash (c ∷ ds) t (h, hs) = rw (h, split_digits_dash ds t hs) refl

-- A name without dots, dashes and slashes, and what may follow it: nothing, or a dash with a text
-- that is not empty.
pub record IsName (first : Bytes) : Type 0 where
  pub given : is_empty first ≡ false
  pub no_dash : Lacks b'-' first
  pub no_dot : Lacks b'.' first
  pub no_slash : Lacks b'/' first

pub data IsRest : Bytes → Type 0 where
  nothing : IsRest []
  dashed : {c : ℕ} {s : Bytes} → Lacks b'.' (c ∷ s) → Lacks b'/' (c ∷ s) → IsRest (b'-' ∷ c ∷ s)

pub data IsExtension : Bytes → Type 0 where
  no_extension : IsExtension []
  yaml : IsExtension yaml_extension
  template : IsExtension template_extension

pub record IsIndex (digits : Bytes) : Type 0 where
  pub given : is_empty digits ≡ false
  pub all_digits : All (λ c. is_digit c ≡ true) digits
  pub in_range : digits_value 0 digits < 2 ^ 31

abbrev pub file_name : Groups → Bytes
file_name g = g.digits ++ (b'-' ∷ (g.first ++ (g.others ++ g.extension)))

longer_than_dash : (c : ℕ) (s : Bytes) → ((b'-' ∷ c ∷ s) == (b'-' ∷ [])) ≡ false
longer_than_dash c s = ground arith

nothing_is_no_dash : ◌==◌ {A = Bytes} [] (b'-' ∷ []) ≡ false
nothing_is_no_dash = ground arith

match_name_rest :
    (digits extension first others : Bytes)
    → IsName first
    → IsRest others
    → match_name digits extension (first ++ others)
      ≡ some (record { digits = digits; first = first; others = others; extension = extension })
unfolding match_name
match_name_rest digits extension first others n nothing =
    let cut = split_before_end b'-' first n.no_dash in
    rw (append-nil, cut, n.given, nothing_is_no_dash) refl
match_name_rest digits extension first others n (dashed {c} {s} dot slash) =
    let cut = split_before_byte b'-' first (c ∷ s) n.no_dash in
    rw (cut, n.given, longer_than_dash c s) refl

match_index_file_name :
    (digits extension first others : Bytes)
    → IsIndex digits
    → IsName first
    → IsRest others
    → match_index extension (digits ++ (b'-' ∷ (first ++ others)))
      ≡ some (record { digits = digits; first = first; others = others; extension = extension })
unfolding match_index match_behind
match_index_file_name digits extension first others i n r =
    let cut = split_digits_dash digits (first ++ others) i.all_digits in
    let matched = match_name_rest digits extension first others n r in
    rw (cut, i.given, matched) refl

digit-Lacks :
    (b : ℕ) (ds : Bytes) → is_digit b ≡ false → All (λ c. is_digit c ≡ true) ds → Lacks b ds
digit-Lacks b [] h k = tt
digit-Lacks b (c ∷ ds) h (k, ks) = (ground arith, digit-Lacks b ds h ks)

IsRest-Lacks_dot : {others : Bytes} → IsRest others → Lacks b'.' others
IsRest-Lacks_dot nothing = tt
IsRest-Lacks_dot (dashed dot slash) = (refl, dot)

IsRest-Lacks_slash : {others : Bytes} → IsRest others → Lacks b'/' others
IsRest-Lacks_slash nothing = tt
IsRest-Lacks_slash (dashed dot slash) = (refl, slash)

abbrev pub stem : Bytes → Bytes → Bytes → Bytes
stem digits first others = digits ++ (b'-' ∷ (first ++ others))

stem-Lacks :
    (b : ℕ) (digits first others : Bytes)
    → Lacks b digits
    → nat_eq b'-' b ≡ false
    → Lacks b first
    → Lacks b others
    → Lacks b (stem digits first others)
stem-Lacks b digits first others d dash f o =
    Lacks-append b digits _ d (dash, Lacks-append b first others f o)

split_before_extension :
    {extension : Bytes} (s : Bytes)
    → IsExtension extension
    → Lacks b'.' s
    → split_before b'.' (s ++ extension) ≡ (s, extension)
split_before_extension s no_extension h = rw append-nil (split_before_end b'.' s h)
split_before_extension s yaml h = split_before_byte b'.' s _ h
split_before_extension s template h = split_before_byte b'.' s _ h

IsExtension-is_extension :
    {extension : Bytes} → IsExtension extension → is_extension extension ≡ true
IsExtension-is_extension no_extension = refl
IsExtension-is_extension yaml = ground arith
IsExtension-is_extension template = ground arith

match_file_name_groups :
    (digits first others extension : Bytes)
    → IsIndex digits
    → IsName first
    → IsRest others
    → IsExtension extension
    → match_file_name (stem digits first others ++ extension)
      ≡ some (record { digits = digits; first = first; others = others; extension = extension })
unfolding match_file_name
match_file_name_groups digits first others extension i n r e =
    let no_dots =
      stem-Lacks b'.' digits first others (digit-Lacks b'.' digits refl i.all_digits) refl n.no_dot
        (IsRest-Lacks_dot r) in
    let cut = split_before_extension (stem digits first others) e no_dots in
    rw (cut, IsExtension-is_extension e) (match_index_file_name digits extension first others i n r)

IsExtension-Lacks : {extension : Bytes} → IsExtension extension → Lacks b'/' extension
IsExtension-Lacks no_extension = tt
IsExtension-Lacks yaml = (refl, (refl, (refl, (refl, (refl, tt)))))
IsExtension-Lacks template = (
  refl,
  (refl, (refl, (refl, (refl, (refl, (refl, (refl, (refl, (refl, (refl, (refl, tt))))))))))),
)

stem_is_some :
    (digits rest extension : Bytes) → is_empty ((digits ++ (b'-' ∷ rest)) ++ extension) ≡ false
stem_is_some [] rest extension = refl
stem_is_some (d ∷ digits) rest extension = refl

-- The base name of a path to the file.
base-stem :
    (dir digits first others extension : Bytes)
    → IsIndex digits
    → IsName first
    → IsRest others
    → IsExtension extension
    → base (dir ++ (b'/' ∷ (stem digits first others ++ extension)))
      ≡ stem digits first others ++ extension
base-stem dir digits first others extension i n r e =
    let no_slashes =
      stem-Lacks b'/' digits first others (digit-Lacks b'/' digits refl i.all_digits) refl
        n.no_slash (IsRest-Lacks_slash r) in
    base_path dir _ (Lacks-append b'/' _ extension no_slashes (IsExtension-Lacks e))
      (stem_is_some digits (first ++ others) extension)

parse_int32_value :
    (digits : Bytes) → IsIndex digits → parse_int32 digits ≡ some (digits_value 0 digits)
unfolding parse_int32
parse_int32_value digits i = let small = i.in_range in ground arith

-- A path to a file whose name is an index of digits below 2³¹, a dash, a name, maybe a dash with
-- more, and one of the extensions, is parsed without a failure into that index, the type that the
-- name stands for, the name of the step and whether it is a template.
pub parse-file_name :
    (dir digits first others extension : Bytes)
    → IsIndex digits
    → IsName first
    → IsRest others
    → IsExtension extension
    → let info = parse (dir ++ (b'/' ∷ (stem digits first others ++ extension))) in
      (info.failure ≡ none)
      × (info.base_name ≡ stem digits first others ++ extension)
      × (info.has_index ≡ true)
      × (info.index ≡ digits_value 0 digits)
      × (info.file_type ≡ type_of_name first)
      × (type_of_name first ≡ apply → info.step_name ≡ first ++ others)
      × (info.is_template ≡ (extension == template_extension))
unfolding parse matched_info indexed_info info_of step_name_of
parse-file_name dir digits first others extension i n r e =
    rw
      (
        base-stem dir digits first others extension i n r e,
        match_file_name_groups digits first others extension i n r e,
      )
      (rw (i.given, parse_int32_value digits i)
        (refl, refl, refl, refl, refl, (λ h. rw h refl), refl))
