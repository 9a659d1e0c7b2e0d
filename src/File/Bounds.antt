-- ===== src/File/Bounds.antt =====
-- The bounds of what Parse yields.
use kuttl.Common.{
  ℕ, ◌<◌, ◌^◌, Bool, true, false, Option, none, some, ◌≡◌, ◌≢◌, refl, inl, inr, ◌↔◌, arith, is_some,
  Option-cases, Bool-cases,
}
use kuttl.Common.Text.{Bytes, is_empty, base}
use kuttl.File.{
  unknown, FileError, Info, Groups, match_file_name, parse_int32, info_of, unknown_info,
  indexed_info, matched_info, parse, type_of_name, no_pattern, index_out_of_range,
}

type_is_known : (first : Bytes) → type_of_name first ≢ unknown
unfolding type_of_name
type_is_known first = ground arith

parse_int32_small : (digits : Bytes) (n : ℕ) → parse_int32 digits ≡ some n → n < 2 ^ 31
unfolding parse_int32
parse_int32_small digits n h = ground arith

abbrev pub InBounds : Info → Type 0
InBounds info = (info.index < 2 ^ 31) × (info.file_type ≡ unknown ↔ is_some info.failure ≡ true)

info_of-InBounds :
    (full_name name : Bytes) (g : Groups) (b : Bool) (n : ℕ)
    → n < 2 ^ 31
    → InBounds (info_of full_name name g b n)
unfolding info_of
info_of-InBounds full_name name g b n h = (h, ((λ p. absurd (type_is_known g.first p)), (λ p. cc)))

unknown_info-InBounds :
    (full_name name : Bytes) (e : FileError) → InBounds (unknown_info full_name name e)
unfolding unknown_info
unknown_info-InBounds full_name name e = (omega arith, ((λ p. refl), (λ p. refl)))

indexed_info-InBounds :
    (full_name name : Bytes) (g : Groups)
    → InBounds (indexed_info full_name name g (parse_int32 g.digits))
unfolding indexed_info
indexed_info-InBounds full_name name g = elim (Option-cases (parse_int32 g.digits)) [
  | inl h ↦ rw h (unknown_info-InBounds full_name name index_out_of_range)
  | inr (n, h) ↦ rw h (info_of-InBounds full_name name g true n (parse_int32_small g.digits n h))
]

matched_info-InBounds :
    (full_name name : Bytes) (m : Option Groups) → InBounds (matched_info full_name name m)
unfolding matched_info
matched_info-InBounds full_name name none = unknown_info-InBounds full_name name no_pattern
matched_info-InBounds full_name name (some g) = elim (Bool-cases (is_empty g.digits)) [
  | inl h ↦ rw h (info_of-InBounds full_name name g false 0 (omega arith))
  | inr h ↦ rw h (indexed_info-InBounds full_name name g)
]

-- For every path, the index that Parse yields is below 2³¹, and the type is unknown exactly if
-- an error says why.
pub parse-InBounds : (path : Bytes) → InBounds (parse path)
unfolding parse
parse-InBounds path = matched_info-InBounds path (base path) (match_file_name (base path))
