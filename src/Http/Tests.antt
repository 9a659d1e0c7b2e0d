-- ===== src/Http/Tests.antt =====
-- Transfers that all work.
use kuttl.Common.{none}
use kuttl.Kube.Errors.{ok}
use kuttl.Http.{missing, Transfers}

abbrev pub flawless : {World : Type 0} → Transfers World
flawless = record {
  Body = Unit;
  stat = λ path w. (missing, w);
  get = λ url w. (ok tt, w);
  create_file = λ path w. (none, w);
  copy = λ body path w. (none, w);
  close = λ path w. (none, w);
  remove = λ path w. w;
  rename = λ from to w. (none, w);
}
