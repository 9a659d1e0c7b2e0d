-- ===== src/Logger/Tests.antt =====
-- A run of the logger, and the theorems at concrete output.
use kuttl.Common.{◌≡◌, refl, List, [], ◌∷◌, ◌++◌, map, All}
use mathlib.Core.List.{flatten}
use kuttl.Common.Text.{Bytes, codes}
use kuttl.Logger.{TestLogger, new_test_logger, with_prefix, write, flush}
use kuttl.Logger.Laws.{
  write-append, write_chunks, write_chunks-flatten, write_lines, HasNoNewline, join,
}

abbrev logger : TestLogger
logger = record { prefix = codes "case"; buffer = codes "ab"; lines = [] }

two_lines : (write logger (codes "c\nd\ne")).0 ≡ record {
  prefix = codes "case";
  buffer = codes "e";
  lines = (codes "case", codes "abc") ∷ (codes "case", codes "d") ∷ [];
}
unfolding write kuttl.Logger.log_all
two_lines = refl

step_logger : (with_prefix (new_test_logger (codes "case")) (codes "0-a")).prefix ≡ codes "case/0-a"
unfolding with_prefix new_test_logger
step_logger = refl

write-append_example :
    (write (write logger (codes "c\nd")).0 (codes "e\n")).0 ≡ (write logger (codes "c\nde\n")).0
write-append_example = write-append logger (codes "c\nd") (codes "e\n")

write_chunks-flatten_example :
    write_chunks logger (codes "c" ∷ codes "\nd" ∷ []) ≡ (write logger (codes "c\nd")).0
unfolding flatten
write_chunks-flatten_example = write_chunks-flatten logger (codes "c") (codes "\nd" ∷ [])

write_lines_example :
    (ls : List Bytes) × ((write logger (codes "c\nd")).0.lines
      ≡ [] ++ map (λ l. (codes "case", l)) ls)
    × All HasNoNewline ls
    × HasNoNewline (write logger (codes "c\nd")).0.buffer
    × (join ls ++ (write logger (codes "c\nd")).0.buffer ≡ codes "abc\nd")
write_lines_example = write_lines logger (codes "c\nd")
