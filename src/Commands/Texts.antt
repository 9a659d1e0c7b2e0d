-- ===== src/Commands/Texts.antt =====
-- pkg/apis/testharness/v1beta1/command.go: how a command is shown in errors. A length counts bytes.
use kuttl.Common.{
  ℕ, suc, ◌≤◌, Bool, true, false, not, ◌&&◌, ◌||◌, List, [], ◌∷◌, ◌++◌, ◌≡◌, ◌∙◌, refl, sym, ap,
  ◌⊎◌, inl, inr, arith, if◌then◌else◌, nat_eq, ltb, length, length-append, take, drop, length-take,
  take-append-drop, All, Bool-cases,
}
use kuttl.Common.Text.{Bytes, codes, is_empty, has_prefix, trim_space}
use kuttl.Logger.{split, newline}
use kuttl.Logger.Laws.{HasNoNewline, join, join-split, split_no_newline}
use mathlib.Core.List.{append_assoc}
use kuttl.Api.{Command}

abbrev pub lines_of : List Bytes × Bytes → List Bytes
lines_of (ls, last) = ls ++ (last ∷ [])

-- Whether the loop of `summarize` drops a trimmed line; `i` is its index.
unfoldable pub is_dropped : ℕ → Bytes → Bool
unfolding has_prefix
is_dropped i line =
    is_empty line || has_prefix line (codes "#") || (nat_eq i 0 && has_prefix line (codes "set -"))

unfoldable pub kept_lines : ℕ → List Bytes → List Bytes
unfolding is_dropped trim_space
kept_lines i [] = []
kept_lines i (line ∷ ls) =
    let rest = kept_lines (suc i) ls in
    if is_dropped i (trim_space line) then rest else trim_space line ∷ rest

-- `strings.Join`
unfoldable pub join_with : Bytes → List Bytes → Bytes
join_with separator [] = []
join_with separator (l ∷ []) = l
join_with separator (l ∷ k ∷ ls) = l ++ (separator ++ join_with separator (k ∷ ls))

-- The lines that are kept, with a backslash, an n and a space between them.
unfoldable pub joined_lines : Bytes → Bytes
unfolding join_with kept_lines split
joined_lines script = join_with (codes "\\n ") (kept_lines 0 (lines_of (split script)))

abbrev pub max_len : ℕ
max_len = 70

unfoldable pub shortened : Bytes → Bytes
shortened joined = if ltb max_len (length joined) then take 67 joined ++ codes "..." else joined

unfoldable pub summarize : Bytes → Bytes
unfolding shortened joined_lines
summarize script = shortened (joined_lines script)

-- `String`
unfoldable pub command_text : Command → Bytes
unfolding summarize
command_text c =
    if is_empty c.command && is_empty c.script
    then codes "(invalid command with neither Command nor Script set)"
    else if not (is_empty c.command) && not (is_empty c.script)
    then codes "(invalid command with both Command and Script set)"
    else if not (is_empty c.command)
    then c.command
    else summarize c.script

-- A line that is left out: it is empty, a comment, or, as the first line, sets options of the shell.
abbrev pub IsLeftOut : ℕ → Bytes → Type 0
IsLeftOut i line =
    (line ≡ [])
    ⊎ ((has_prefix line (codes "#") ≡ true) ⊎ ((i ≡ 0) × (has_prefix line (codes "set -") ≡ true)))

-- The lines of a script from the i-th on, and those that are shown, trimmed, in their order: each is left out or
-- shown.
pub data Shown : ℕ → List Bytes → List Bytes → Type 0 where
  no_lines : {i : ℕ} → Shown i [] []
  left_out :
      {i : ℕ} {line : Bytes} {ls ks : List Bytes}
      → IsLeftOut i (trim_space line)
      → Shown (suc i) ls ks
      → Shown i (line ∷ ls) ks
  shown :
      {i : ℕ} {line : Bytes} {ls ks : List Bytes}
      → ¬ IsLeftOut i (trim_space line)
      → Shown (suc i) ls ks
      → Shown i (line ∷ ls) (trim_space line ∷ ks)

is_dropped-IsLeftOut : (i : ℕ) (line : Bytes) → is_dropped i line ≡ true → IsLeftOut i line
unfolding is_dropped
is_dropped-IsLeftOut i [] h = inl refl
is_dropped-IsLeftOut i (c ∷ line) h = elim (Bool-cases (has_prefix (c ∷ line) (codes "#"))) [
  | inl comment ↦ inr (inl comment)
  | inr other ↦ inr (inr (ground arith, ground arith))
]

not_dropped_lem : (i : ℕ) (line : Bytes) → is_dropped i line ≡ false → ¬ IsLeftOut i line
unfolding is_dropped
not_dropped_lem i [] h (inl nil) = ground arith
not_dropped_lem i (c ∷ line) h (inl nil) = ground arith
not_dropped_lem i line h (inr (inl comment)) = ground arith
not_dropped_lem i line h (inr (inr (first, set))) = ground arith

kept_lines-Shown : (i : ℕ) (ls : List Bytes) → Shown i ls (kept_lines i ls)
unfolding kept_lines
kept_lines-Shown i [] = no_lines
kept_lines-Shown i (line ∷ ls) = elim (Bool-cases (is_dropped i (trim_space line))) [
  | inl h ↦
      rw h (left_out (is_dropped-IsLeftOut i (trim_space line) h) (kept_lines-Shown (suc i) ls))
  | inr h ↦ rw h (shown (not_dropped_lem i (trim_space line) h) (kept_lines-Shown (suc i) ls))
]

-- The lines of a text: the text with newlines between them, and none in them.
abbrev pub IsLinesOf : List Bytes → Bytes → Type 0
IsLinesOf ls text = (join_with (codes "\n") ls ≡ text) × All HasNoNewline ls

join_with-join :
    (ls : List Bytes) (last : Bytes) → join_with (codes "\n") (ls ++ (last ∷ [])) ≡ join ls ++ last
unfolding join_with join
join_with-join [] last = refl
join_with-join (l ∷ []) last = sym (append_assoc l (codes "\n") last)
join_with-join (l ∷ k ∷ ls) last =
    ap (λ t. l ++ (codes "\n" ++ t)) (join_with-join (k ∷ ls) last)
    ∙ sym (append_assoc l (newline ∷ join (k ∷ ls)) last)

All-snoc :
    (ls : List Bytes) (last : Bytes)
    → All HasNoNewline ls
    → HasNoNewline last
    → All HasNoNewline (ls ++ (last ∷ []))
All-snoc [] last h k = (k, tt)
All-snoc (l ∷ ls) last (h, hs) k = (h, All-snoc ls last hs k)

split-IsLinesOf : (text : Bytes) → IsLinesOf (lines_of (split text)) text
split-IsLinesOf text =
    let (free, last_free) = split_no_newline text in
    (
      join_with-join (split text).0 (split text).1 ∙ join-split text,
      All-snoc (split text).0 (split text).1 free last_free,
    )

-- A text of at most 70 bytes that is the other, or shows that this one is longer.
abbrev pub Shortens : Bytes → Bytes → Type 0
Shortens long short =
    (length short ≤ 70)
    × ((short ≡ long)
        ⊎ ((start : Bytes) × (rest : Bytes) × (long ≡ start ++ rest)
            × (short ≡ start ++ codes "...")
            × (length start ≡ 67)
            × (4 ≤ length rest)))

shortened-Shortens : (joined : Bytes) → Shortens joined (shortened joined)
unfolding shortened
shortened-Shortens joined = elim (Bool-cases (ltb max_len (length joined))) [
  | inr h ↦ rw h (ground arith, inl refl)
  | inl h ↦
      let long : 71 ≤ length joined = ground arith in
      let start : length (take 67 joined) ≡ 67 = length-take 67 joined (omega (arith, long)) in
      let whole = take-append-drop 67 joined in
      rw h (
        omega (arith, length-append (take 67 joined) (codes "..."), start),
        inr (
          take 67 joined,
          drop 67 joined,
          sym whole,
          refl,
          start,
          omega (
            arith,
            length-append (take 67 joined) (drop 67 joined),
            start,
            ap length whole,
            long,
          ),
        ),
      )
]

-- A command with a script only is shown by the lines of the script, trimmed and in their order, without those that are empty or
-- comments and without a first line that sets options. They are shown whole if they have 70 bytes at most with what
-- joins them, and otherwise the first 67 bytes and three dots.
pub command_text-Shortens :
    (c : Command)
    → is_empty c.command ≡ true
    → is_empty c.script ≡ false
    → (ls : List Bytes) × (ks : List Bytes) × IsLinesOf ls c.script
      × Shown 0 ls ks
      × Shortens (join_with (codes "\\n ") ks) (command_text c)
unfolding command_text summarize joined_lines
command_text-Shortens c no_command script = (
  lines_of (split c.script),
  kept_lines 0 (lines_of (split c.script)),
  split-IsLinesOf c.script,
  kept_lines-Shown 0 (lines_of (split c.script)),
  rw (no_command, script) (shortened-Shortens (joined_lines c.script)),
)
