-- ===== src/Harness/Connection.antt =====
-- internal/harness/harness.go: the configuration of the cluster, and the clients for it. The
-- warnings of the API server are left out.
use kuttl.Common.{◌*◌, Bool, true, false, not, Option, none, some, [], if◌then◌else◌}
use kuttl.Common.Int.{pos}
use kuttl.Common.Text.{Bytes, codes, is_empty}
use kuttl.Commands.{second}
use kuttl.Kube.Errors.{Error, Result, ok, err, LastCheck, nothing}
use kuttl.Kube.Objects.{Object, Gvk}
use kuttl.Kube.Outside.{Outside}
use kuttl.Harness.{Machines, Harness, Ran}
use kuttl.Harness.Kind.{run_kind}

abbrev pub service_account_gvk : Gvk
service_account_gvk = record { group = []; version = codes "v1"; kind = codes "ServiceAccount" }

module _ (o : Outside) (m : Machines o) where
  abbrev H : Type 0
  H = Harness o m

  -- The condition of the wait in `waitForSA`: any error is waited out.
  unfoldable pub account_there :
      LastCheck → Result Object × o.World → Result Bool × (o.World × LastCheck)
  account_there last (ok obj, w) = (ok true, (w, last))
  account_there last (err e, w) = (ok false, (w, last))

  unfoldable pub wait_with : Bytes → Bytes → Result o.Client × o.World → Option Error × o.World
  unfolding account_there
  wait_with name namespace (err e, w) = (some e, w)
  wait_with name namespace (ok cl, w) =
      let (e, (w', last)) =
        o.poll (500 * (1000 * 1000)) (pos (60 * second))
          (λ s.
            account_there s.1
              (o.get cl service_account_gvk (record { namespace = namespace; name = name }) s.0))
          (w, nothing) in
      (e, w')

  -- `waitForSA`
  unfoldable pub wait_for_sa : m.Config → Bytes → Bytes → o.World → Option Error × o.World
  unfolding wait_with
  wait_for_sa c name namespace w = wait_with name namespace (m.new_client c w)

  -- `waitForFunctionalCluster`: the error is that of the first wait.
  unfoldable pub second_wait : Error → Option Error × o.World → Option Error × o.World
  second_wait e (none, w) = (none, w)
  second_wait e (some f, w) = (some e, w)

  unfoldable pub first_wait : m.Config → Bytes → Option Error × o.World → Option Error × o.World
  unfolding second_wait wait_for_sa
  first_wait c namespace (none, w) = (none, w)
  first_wait c namespace (some e, w) =
      if not (is_empty namespace)
      then second_wait e (wait_for_sa c (codes "default") namespace w)
      else (some e, w)

  unfoldable pub wait_for_functional_cluster : m.Config → Bytes → o.World → Option Error × o.World
  unfolding first_wait wait_for_sa
  wait_for_functional_cluster c namespace w =
      first_wait c namespace (wait_for_sa c (codes "default") (codes "default") w)

  -- `RunTestEnv`, with the clients that `StartTestEnvironment` makes.
  unfoldable pub discovery_made : m.Config → H → Result o.Discovery × o.World → Ran o m m.Config
  discovery_made c h (err e, w) = ((err e, h), w)
  discovery_made c h (ok d, w) = ((ok c, record h { env = true }), w)

  unfoldable pub client_made : m.Config → H → Result o.Client × o.World → Ran o m m.Config
  unfolding discovery_made
  client_made c h (err e, w) = ((err e, h), w)
  client_made c h (ok cl, w) = discovery_made c h (m.new_discovery c w)

  unfoldable pub environment_started : H → Result m.Config × o.World → Ran o m m.Config
  unfolding client_made
  environment_started h (err e, w) = ((err e, h), w)
  environment_started h (ok c, w) = client_made c h (m.new_client c w)

  unfoldable pub run_test_env : H → o.World → Ran o m m.Config
  unfolding environment_started
  run_test_env h w = environment_started h (m.start_environment w)

  -- The switch of `Config`.
  unfoldable pub choose_config : Option m.Config → H → o.World → Ran o m m.Config
  unfolding run_test_env run_kind
  choose_config (some c) h w = ((ok c, h), w)
  choose_config none h w =
      if h.test_suite.start_control_plane
      then run_test_env h w
      else if h.test_suite.start_kind
      then run_kind o m h w
      else (let (r, w') = m.get_config w in ((r, h), w'))

  -- The rest of `Config`, with the configuration that has been stored.
  unfoldable pub kubeconfig_written : m.Config → H → Option Error × o.World → Ran o m m.Config
  kubeconfig_written c h (none, w) = ((ok c, h), w)
  kubeconfig_written c h (some e, w) = ((err e, h), w)

  unfoldable pub cluster_ready : m.Config → H → Option Error × o.World → Ran o m m.Config
  unfolding kubeconfig_written
  cluster_ready c h (some e, w) = ((err e, h), w)
  cluster_ready c h (none, w) = kubeconfig_written c h (m.write_kubeconfig c w)

  abbrev pub waited : m.Config → H → o.World → Option Error × o.World
  waited c h w =
      if not h.test_suite.start_control_plane
      then wait_for_functional_cluster c h.test_suite.namespace w
      else (none, w)

  unfoldable pub config_chosen : Ran o m m.Config → Ran o m m.Config
  unfolding cluster_ready wait_for_functional_cluster
  config_chosen ((err e, h), w) = ((err e, h), w)
  config_chosen ((ok c, h), w) = cluster_ready c (record h { config = some c }) (waited c h w)

  -- `Config`
  unfoldable pub config_or : Option m.Config → H → o.World → Ran o m m.Config
  unfolding config_chosen choose_config
  config_or (some c) h w = ((ok c, h), w)
  config_or none h w = config_chosen (choose_config h.test_suite.config h w)

  unfoldable pub config : H → o.World → Ran o m m.Config
  unfolding config_or
  config h w = config_or h.config h w

  -- `Client`. A nil pointer in the answer is `none`.
  unfoldable pub store_client : H → Result o.Client × o.World → Ran o m (Option o.Client)
  store_client h (ok cl, w) = ((ok (some cl), record h { client = some (some cl) }), w)
  store_client h (err e, w) = ((err e, record h { client = some none }), w)

  unfoldable pub connect : Ran o m m.Config → Ran o m (Option o.Client)
  unfolding store_client
  connect ((err e, h), w) = ((err e, h), w)
  connect ((ok c, h), w) = store_client h (m.new_client c w)

  unfoldable pub client_or :
      Option (Option o.Client) → Bool → H → o.World → Ran o m (Option o.Client)
  unfolding connect config
  client_or (some cl) false h w = ((ok cl, h), w)
  client_or (some cl) true h w = connect (config h w)
  client_or none force h w = connect (config h w)

  unfoldable pub client : Bool → H → o.World → Ran o m (Option o.Client)
  unfolding client_or
  client force_new h w = client_or h.client force_new h w

  -- `DiscoveryClient`
  unfoldable pub store_discovery : H → Result o.Discovery × o.World → Ran o m (Option o.Discovery)
  store_discovery h (ok d, w) = ((ok (some d), record h { dclient = some (some d) }), w)
  store_discovery h (err e, w) = ((err e, record h { dclient = some none }), w)

  unfoldable pub connect_discovery : Ran o m m.Config → Ran o m (Option o.Discovery)
  unfolding store_discovery
  connect_discovery ((err e, h), w) = ((err e, h), w)
  connect_discovery ((ok c, h), w) = store_discovery h (m.new_discovery c w)

  unfoldable pub discovery_or :
      Option (Option o.Discovery) → H → o.World → Ran o m (Option o.Discovery)
  unfolding connect_discovery config
  discovery_or (some d) h w = ((ok d, h), w)
  discovery_or none h w = connect_discovery (config h w)

  unfoldable pub discovery_client : H → o.World → Ran o m (Option o.Discovery)
  unfolding discovery_or
  discovery_client h w = discovery_or h.dclient h w
