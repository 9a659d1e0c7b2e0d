-- ===== src/Logger/Laws.antt =====
-- Lines come out whole, however the output was cut into chunks.
use kuttl.Common.{ℕ, ◌≡◌, refl, ap, ◌∙◌, List, [], ◌∷◌, ◌++◌, arith, All, false, ◌⊎◌, nat_eq}
use kuttl.Common.{map, Bool-cases, inl, inr}
use kuttl.Common.Text.{Bytes}
use kuttl.Logger.{TestLogger, newline, log, split, onto_first, log_all, write, flush}
use mathlib.Core.List.{flatten, append_assoc, append-nil, map-append}

onto_first-append :
    (c : ℕ) (ls : List Bytes) (last t : Bytes)
    → nat_eq c newline ≡ false
    → onto_first c (ls ++ (split (last ++ t)).0) (split (last ++ t)).1 ≡ (
      (onto_first c ls last).0 ++ (split ((onto_first c ls last).1 ++ t)).0,
      (split ((onto_first c ls last).1 ++ t)).1,
    )
unfolding split
onto_first-append c [] last t h = rw h
onto_first-append c (l ∷ ls) last t h = refl

-- What a split leaves open goes in front of the text that follows.
split-append :
    (s t : Bytes)
    → split (s ++ t) ≡ ((split s).0 ++ (split ((split s).1 ++ t)).0, (split ((split s).1 ++ t)).1)
unfolding split
split-append [] t = refl
split-append (c ∷ s) t = elim (Bool-cases (nat_eq c newline)) [
  | inl e ↦ rw (e, split-append s t)
  | inr e ↦ rw (e, split-append s t) (onto_first-append c (split s).0 (split s).1 t e)
]

log_all-lines :
    (t : TestLogger) (ls : List Bytes)
    → log_all t ls ≡ record t { lines = t.lines ++ map (λ l. (t.prefix, l)) ls }
unfolding log_all
log_all-lines t [] = rw append-nil
log_all-lines t (l ∷ ls) = log_all-lines (log t l) ls ∙ rw (append_assoc t.lines)

abbrev pub HasNoNewline : Bytes → Type 0
HasNoNewline s = All (λ c. nat_eq c newline ≡ false) s

onto_first_no_newline :
    (c : ℕ) (ls : List Bytes) (last : Bytes)
    → nat_eq c newline ≡ false
    → All HasNoNewline ls × HasNoNewline last
    → All HasNoNewline (onto_first c ls last).0 × HasNoNewline (onto_first c ls last).1
onto_first_no_newline c [] last h (a, b) = (tt, (h, b))
onto_first_no_newline c (l ∷ ls) last h ((a, as'), b) = (((h, a), as'), b)

pub split_no_newline : (s : Bytes) → All HasNoNewline (split s).0 × HasNoNewline (split s).1
unfolding split
split_no_newline [] = (tt, tt)
split_no_newline (c ∷ s) = elim (Bool-cases (nat_eq c newline)) [
  | inl e ↦ rw e (let (a, b) = split_no_newline s in ((tt, a), b))
  | inr e ↦ rw e (onto_first_no_newline c (split s).0 (split s).1 e (split_no_newline s))
]

-- The lines with the newlines that ended them.
unfoldable pub join : List Bytes → Bytes
join [] = []
join (l ∷ ls) = l ++ (newline ∷ join ls)

onto_first-join :
    (c : ℕ) (ls : List Bytes) (last : Bytes)
    → join (onto_first c ls last).0 ++ (onto_first c ls last).1 ≡ c ∷ (join ls ++ last)
unfolding join
onto_first-join c [] last = refl
onto_first-join c (l ∷ ls) last = refl

pub join-split : (s : Bytes) → join (split s).0 ++ (split s).1 ≡ s
unfolding split join
join-split [] = refl
join-split (c ∷ s) = elim (Bool-cases (nat_eq c newline)) [
  | inl e ↦ rw e let same : newline ≡ c = ground arith in rw (join-split s, same)
  | inr e ↦ rw e (onto_first-join c (split s).0 (split s).1 ∙ ap (◌∷◌ c) (join-split s))
]

-- Two writes log the same lines, and leave the same buffer, as one write of the joined bytes.
pub write-append : (t : TestLogger) (p q : Bytes) → (write (write t p).0 q).0 ≡ (write t (p ++ q)).0
unfolding write
write-append t p q =
    rw (← append_assoc t.buffer p q, split-append (t.buffer ++ p) q)
      (simp (log_all-lines, map-append, append_assoc))

-- The successive calls of `Write` for one stream.
pub write_chunks : TestLogger → List Bytes → TestLogger
write_chunks t [] = t
write_chunks t (p ∷ ps) = write_chunks (write t p).0 ps

write_chunks-flatten_onto :
    (t : TestLogger) (p : Bytes) (ps : List Bytes)
    → write_chunks (write t p).0 ps ≡ (write t (p ++ flatten ps)).0
unfolding write_chunks write log_all flatten
write_chunks-flatten_onto t p [] = rw append-nil
write_chunks-flatten_onto t p (q ∷ ps) =
    rw (write-append t p q) (write_chunks-flatten_onto t (p ++ q) ps ∙ rw append_assoc)

-- Output that arrives in chunks, at least one, is logged as if it had arrived at once: the same
-- lines in the same order, and the same rest in the buffer.
pub write_chunks-flatten :
    (t : TestLogger) (p : Bytes) (ps : List Bytes)
    → write_chunks t (p ∷ ps) ≡ (write t (flatten (p ∷ ps))).0
unfolding write_chunks flatten
write_chunks-flatten t p ps = write_chunks-flatten_onto t p ps

-- A write adds whole lines, none with a newline in it, under the logger's prefix. The rest,
-- which has no newline either, stays in the buffer, and no byte of the old buffer or of the
-- output is lost or moved.
pub write_lines :
    (t : TestLogger) (p : Bytes)
    → (ls : List Bytes) × ((write t p).0.lines ≡ t.lines ++ map (λ l. (t.prefix, l)) ls)
      × All HasNoNewline ls
      × HasNoNewline (write t p).0.buffer
      × (join ls ++ (write t p).0.buffer ≡ t.buffer ++ p)
unfolding write
write_lines t p =
    let parts = split (t.buffer ++ p) in
    let free = split_no_newline (t.buffer ++ p) in
    (
      parts.0,
      rw log_all-lines,
      free.0,
      rw log_all-lines free.1,
      rw log_all-lines (join-split (t.buffer ++ p)),
    )

-- `Flush` empties the buffer and logs what was in it as one line, or nothing if it was empty;
-- a second `Flush` changes nothing.
pub flush_lem :
    (t : TestLogger)
    → ((flush t).buffer ≡ [])
      × ((t.buffer ≡ []) ⊎ ((flush t).lines ≡ t.lines ++ ((t.prefix, t.buffer) ∷ [])))
      × (flush (flush t) ≡ flush t)
unfolding flush
flush_lem t = ground arith
