-- ===== src/Collector.antt =====
-- pkg/apis/testharness/v1beta1/collector.go: the commands that collect logs after a failed
-- assertion. The methods change the collector that they are called on, so they return it.
pub mod Laws
mod Tests
use kuttl.Common.{
  Bool, not, ◌&&◌, ◌||◌, Option, none, some, List, [], ◌∷◌, ◌++◌, if◌then◌else◌, ◌==◌,
}
use kuttl.Common.{true, false}
use kuttl.Common.Int.{ℤ, pos, negsuc, ℤ_eq}
use kuttl.Common.Text.{Bytes, codes, is_empty, text_eq, to_lower, decimal_int}
use kuttl.Api.{Command, TestCollector}

abbrev pub pod : Bytes
pod = codes "pod"

abbrev pub events : Bytes
events = codes "events"

abbrev pub command_type : Bytes
command_type = codes "command"

pub data CollectorError : Type 0 where
  events_with_other_fields : CollectorError
  pod_with_command : CollectorError
  pod_without_pod_or_selector : CollectorError
  command_missing : CollectorError
  command_with_other_fields : CollectorError
  unknown_type : Bytes → CollectorError

unfoldable pub clean_type : TestCollector → TestCollector
clean_type tc =
    let guessed = if is_empty tc.cmd then pod else command_type in
    record tc {
      collector_type = to_lower (if is_empty tc.collector_type then guessed else tc.collector_type);
    }

unfoldable pub valid_events : TestCollector → Option CollectorError
valid_events tc =
    if not (is_empty tc.cmd) || not (is_empty tc.selector) || not (is_empty tc.container)
    then some events_with_other_fields
    else none

unfoldable pub valid_pod : TestCollector → Option CollectorError
valid_pod tc =
    if not (is_empty tc.cmd)
    then some pod_with_command
    else if is_empty tc.pod && is_empty tc.selector
    then some pod_without_pod_or_selector
    else none

unfoldable pub validate_cmd : TestCollector → Option CollectorError
validate_cmd tc =
    if is_empty tc.cmd
    then some command_missing
    else if not (is_empty tc.pod)
        || not (is_empty tc.namespace)
        || not (is_empty tc.container)
        || not (is_empty tc.selector)
    then some command_with_other_fields
    else none

-- The `switch` over the type, cleaned before.
unfoldable pub validate_cleaned : TestCollector → Option CollectorError
unfolding valid_events valid_pod validate_cmd
validate_cleaned tc =
    if tc.collector_type == command_type
    then validate_cmd tc
    else if tc.collector_type == pod
    then valid_pod tc
    else if tc.collector_type == events
    then valid_events tc
    else some (unknown_type tc.collector_type)

unfoldable pub validate : TestCollector → TestCollector × Option CollectorError
validate tc = let tc' = clean_type tc in (tc', validate_cleaned tc')

abbrev collecting : Bytes → Command
collecting text = record {
  command = text;
  namespaced = false;
  script = [];
  ignore_failure = true;
  background = false;
  timeout = pos 0;
  skip_log_output = false;
}

-- A part of a command line that is written only if its value is given.
abbrev pub when_given : Bytes → Bytes → Bytes
when_given value text = if is_empty value then [] else text

abbrev pub namespace_or_default : TestCollector → Bytes
namespace_or_default tc = if is_empty tc.namespace then codes "$NAMESPACE" else tc.namespace

unfoldable pub event_command : TestCollector → Command
event_command tc = collecting (
    codes "kubectl get events"
    ++ (when_given tc.pod (codes " " ++ tc.pod) ++ (codes " -n " ++ namespace_or_default tc)))

-- The last lines to collect: 0 is replaced by a default.
unfoldable pub default_tail : TestCollector → TestCollector
default_tail tc =
    if tc.tail == pos 0
    then record tc { tail = if is_empty tc.selector then negsuc 0 else pos 10 }
    else tc

unfoldable pub pod_command_line : TestCollector → Bytes
pod_command_line tc =
    codes "kubectl logs --prefix"
    ++ (when_given tc.pod (codes " " ++ tc.pod)
        ++ (when_given tc.selector (codes " -l " ++ tc.selector)
            ++ (codes " -n "
                ++ (namespace_or_default tc
                    ++ ((if is_empty tc.container
                          then codes " --all-containers"
                          else codes " -c " ++ tc.container)
                        ++ (codes " --tail=" ++ decimal_int tc.tail))))))

unfoldable pub pod_command : TestCollector → TestCollector × Command
pod_command tc = let tc' = default_tail tc in (tc', collecting (pod_command_line tc'))

-- The `switch` of `Command`, after a validation that has passed.
unfoldable pub command_of : TestCollector → TestCollector × Option Command
unfolding event_command
command_of tc =
    let pods = pod_command tc in
    if tc.collector_type == pod
    then (pods.0, some pods.1)
    else if tc.collector_type == command_type
    then (tc, some (collecting tc.cmd))
    else if tc.collector_type == events
    then (tc, some (event_command tc))
    else (tc, none)

unfoldable pub command : TestCollector → TestCollector × Option Command
command tc = elim (validate_cleaned (clean_type tc)) [
  | some e ↦ (clean_type tc, none)
  | none ↦ command_of (clean_type tc)
]
