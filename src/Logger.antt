-- ===== src/Logger.antt =====
-- internal/utils/logger.go: `TestLogger`, which turns the output of commands into log lines.
--
-- A text is its bytes. `lines` is what the logger has passed to `testing.T.Log`, oldest first,
-- each with the prefix; the time of day that `Log` puts in front is left out.
pub mod Laws
mod Tests
use kuttl.Common.Text.{Bytes}
use kuttl.Common.{ℕ, List, [], ◌∷◌, ◌++◌, if◌then◌else◌, nat_eq, Bool, length}

pub record TestLogger : Type 0 where
  pub prefix : Bytes
  pub buffer : Bytes
  pub lines : List (Bytes × Bytes)

abbrev pub newline : ℕ
newline = b'\n'

unfoldable pub new_test_logger : Bytes → TestLogger
new_test_logger prefix = record { prefix = prefix; buffer = []; lines = [] }

unfoldable pub log : TestLogger → Bytes → TestLogger
log t text = record t { lines = t.lines ++ ((t.prefix, text) ∷ []) }

-- A logger of the same test, with an empty buffer of its own.
unfoldable pub with_prefix : TestLogger → Bytes → TestLogger
with_prefix t prefix = record t { prefix = t.prefix ++ (b'/' ∷ prefix); buffer = [] }

abbrev pub onto_first : ℕ → List Bytes → Bytes → List Bytes × Bytes
onto_first c [] last = ([], c ∷ last)
onto_first c (l ∷ ls) last = ((c ∷ l) ∷ ls, last)

-- `bytes.Split` at newlines: all parts but the last, and the last.
unfoldable pub split : Bytes → List Bytes × Bytes
split [] = ([], [])
split (c ∷ s) =
    let (ls, last) = split s in if nat_eq c newline then ([] ∷ ls, last) else onto_first c ls last

-- The loop of `Write`.
unfoldable pub log_all : TestLogger → List Bytes → TestLogger
unfolding log
log_all t [] = t
log_all t (l ∷ ls) = log_all (log t l) ls

-- The logger after the call, and the number of bytes that it reports as written.
unfoldable pub write : TestLogger → Bytes → TestLogger × ℕ
unfolding split
write t p =
    let (ls, last) = split (t.buffer ++ p) in (log_all (record t { buffer = last }) ls, length p)

flush_buffer : TestLogger → Bytes → TestLogger
flush_buffer t [] = t
flush_buffer t (c ∷ s) = record (log t (c ∷ s)) { buffer = [] }

unfoldable pub flush : TestLogger → TestLogger
unfolding flush_buffer log
flush t = flush_buffer t t.buffer
