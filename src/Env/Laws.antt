-- ===== src/Env/Laws.antt =====
-- Two dollar signs stand for one, so every text can be written.
use kuttl.Common.{
  ℕ, false, some, List, [], ◌∷◌, if◌then◌else◌, nat_eq, ◌≡◌, refl, ◌∙◌, ap, sym, ◌≢◌, Option-cases,
  arith, inl, inr, Bool-cases, ◌==◌, All,
}
use kuttl.Common.Text.{Bytes, text_eq}
use kuttl.Common.Dict.{Dict, lookup, insert, lookup-insert}
use kuttl.Env.{
  dollar, shell_name, is_special, expand_loop, add_environ, add_all, full_env, split_variable,
  value_or_empty, expand_with_map,
}

-- The documented way to write a text in which nothing is to be replaced.
pub escape : Bytes → Bytes
escape [] = []
escape (c ∷ s) = let rest = escape s in if nat_eq c dollar then dollar ∷ dollar ∷ rest else c ∷ rest

shell_name-dollar : (s : Bytes) → shell_name (dollar ∷ s) ≡ (dollar ∷ [], 1)
unfolding shell_name is_special
shell_name-dollar s = refl

expand_loop-dollars :
    (mapping : Bytes → Bytes) (s : Bytes)
    → mapping (dollar ∷ []) ≡ dollar ∷ []
    → expand_loop mapping 0 (dollar ∷ dollar ∷ s) ≡ dollar ∷ expand_loop mapping 0 s
unfolding expand_loop
expand_loop-dollars mapping s h = rw h refl

expand_loop-other :
    (mapping : Bytes → Bytes) (c : ℕ) (s : Bytes)
    → nat_eq c dollar ≡ false
    → expand_loop mapping 0 (c ∷ s) ≡ c ∷ expand_loop mapping 0 s
unfolding expand_loop
expand_loop-other mapping c s h = rw h refl

expand_loop-escape :
    (mapping : Bytes → Bytes) (s : Bytes)
    → mapping (dollar ∷ []) ≡ dollar ∷ []
    → expand_loop mapping 0 (escape s) ≡ s
unfolding escape expand_loop
expand_loop-escape mapping [] h = refl
expand_loop-escape mapping (c ∷ s) h = elim (Bool-cases (nat_eq c dollar)) [
  | inl p ↦
      let same : dollar ≡ c = ground arith in
      rw p
        (expand_loop-dollars mapping (escape s) h ∙ rw (expand_loop-escape mapping s h, same) refl)
  | inr p ↦
      rw p (expand_loop-other mapping c (escape s) p ∙ ap (◌∷◌ c) (expand_loop-escape mapping s h))
]

-- No variable of a map, or of the process, is named by a dollar sign alone.
abbrev pub HasNoDollar : Dict Bytes Bytes → Type 0
HasNoDollar env = All (λ v. v.0 ≢ dollar ∷ []) env

abbrev pub ProcessHasNoDollar : List Bytes → Type 0
ProcessHasNoDollar environ =
    All (λ v. (name value : Bytes) → split_variable v ≡ some (name, value) → name ≢ dollar ∷ [])
      environ

insert-dollar :
    (name value : Bytes) (full : Dict Bytes Bytes)
    → name ≢ dollar ∷ []
    → lookup (dollar ∷ []) (insert name value full) ≡ lookup (dollar ∷ []) full
insert-dollar name value full n =
    let differ : ((dollar ∷ []) == name) ≡ false = elim (text_eq.dec (dollar ∷ []) name) [
      | yes p ↦ absurd (n (sym p))
      | no q ↦ ground arith
    ] in
    lookup-insert (dollar ∷ []) name value full ∙ rw differ refl

add_all-dollar :
    (env full : Dict Bytes Bytes)
    → HasNoDollar env
    → lookup (dollar ∷ []) (add_all env full) ≡ lookup (dollar ∷ []) full
unfolding add_all
add_all-dollar [] full h = refl
add_all-dollar ((name, value) ∷ env) full (n, h) =
    add_all-dollar env (insert name value full) h ∙ insert-dollar name value full n

add_environ-dollar :
    (environ : List Bytes) (full : Dict Bytes Bytes)
    → ProcessHasNoDollar environ
    → lookup (dollar ∷ []) (add_environ environ full) ≡ lookup (dollar ∷ []) full
unfolding add_environ
add_environ-dollar [] full h = refl
add_environ-dollar (v ∷ environ) full (n, h) = elim (Option-cases (split_variable v)) [
  | inl p ↦ let rest = add_environ-dollar environ full h in ground arith
  | inr ((name, value), p) ↦
      let rest =
        add_environ-dollar environ (insert name value full) h
        ∙ insert-dollar name value full (n name value p) in
      ground arith
]

-- `ExpandWithMap` of a text with its dollar signs doubled gives the text back: nothing else in it
-- is replaced, if no variable is named by a dollar sign alone.
pub expand_with_map-escape :
    (environ : List Bytes) (env : Dict Bytes Bytes) (s : Bytes)
    → ProcessHasNoDollar environ
    → HasNoDollar env
    → expand_with_map environ (escape s) env ≡ s
unfolding expand_with_map full_env lookup text_eq
expand_with_map-escape environ env s h k =
    let start : Dict Bytes Bytes = (dollar ∷ [], dollar ∷ []) ∷ [] in
    let kept =
      add_all-dollar env (add_environ environ start) k ∙ add_environ-dollar environ start h in
    expand_loop-escape (λ name. value_or_empty (lookup name (full_env environ env))) s
      (ap value_or_empty kept)
