-- ===== src/Collector/Tests.antt =====
-- Collectors of collector_test.go, and the theorems at them.
use kuttl.Common.{◌≡◌, refl, ◌↔◌, true, Option, none, some, [], is_some}
use kuttl.Common.Int.{pos, ℤ_eq}
use kuttl.Common.Text.{Bytes, codes, text_eq, to_lower}
use kuttl.Api.{Command, TestCollector}
use kuttl.Collector.{clean_type, validate_cleaned, command_of, pod_command, default_tail, command}
use kuttl.Collector.{pod_command_line}

-- `selector: app=web`, of the default type
abbrev by_selector : TestCollector
by_selector = record {
  collector_type = [];
  pod = [];
  namespace = [];
  container = [];
  selector = codes "app=web";
  tail = pos 0;
  cmd = [];
}

line_of : Option Command → Bytes
line_of none = []
line_of (some c) = c.command

selector_command :
    line_of (command by_selector).1
    ≡ codes "kubectl logs --prefix -l app=web -n $NAMESPACE --all-containers --tail=10"
unfolding line_of command clean_type validate_cleaned command_of pod_command pod_command_line
    text_eq to_lower default_tail ℤ_eq kuttl.Common.Text.decimal_int
selector_command = refl
