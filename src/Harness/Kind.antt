-- ===== src/Harness/Kind.antt =====
-- internal/harness/harness.go: the start of a KIND cluster.
use kuttl.Common.{
  ℕ, suc, Bool, true, false, not, Option, none, some, List, [], ◌∷◌, ◌++◌, if◌then◌else◌,
}
use kuttl.Common.Text.{Bytes, codes, decimal, is_empty}
use kuttl.Common.Paths.{path_join}
use kuttl.Kube.Errors.{Error, Result, ok, err, plain, wrapping}
use kuttl.Kube.Outside.{Outside}
use kuttl.Harness.{KindNode, Machines, Harness, Ran}

module _ (o : Outside) (m : Machines o) where
  abbrev H : Type 0
  H = Harness o m

  -- `initTempPath`
  unfoldable pub with_temp_path : H → Result Bytes × o.World → (Option Error × H) × o.World
  with_temp_path h (ok path, w) = ((none, record h { temp_path = path }), w)
  with_temp_path h (err e, w) = ((some e, h), w)

  unfoldable pub init_temp_path : H → o.World → (Option Error × H) × o.World
  unfolding with_temp_path
  init_temp_path h w =
      if is_empty h.temp_path then with_temp_path h (m.make_temp_dir w) else ((none, h), w)

  -- `kubeconfigPath`
  unfoldable pub kubeconfig_path : H → Bytes
  unfolding path_join
  kubeconfig_path h = path_join h.temp_path (codes "kubeconfig")

  -- `DockerClient`. It is called only once, so what it keeps is left out.
  unfoldable pub docker_client : H → o.World → Ran o m m.Docker
  docker_client h w = let (r, w') = m.new_docker w in ((r, h), w')

  -- The loop of `addNodeCaches`. `index` is that of the first node.
  unfoldable pub add_mount : KindNode → Result Bytes → KindNode
  add_mount node (err e) = node
  add_mount node (ok mountpoint) = record {
    extra_mounts = node.extra_mounts ++ ((codes "/var/lib/containerd", mountpoint) ∷ []);
  }

  unfoldable pub add_caches :
      m.Docker → Bytes → ℕ → List KindNode → o.World → List KindNode × o.World
  unfolding add_mount
  add_caches d context index [] w = ([], w)
  add_caches d context index (node ∷ nodes) w =
      let (volume, w1) = m.volume_create d (context ++ (b'-' ∷ decimal index)) w in
      let (rest, w2) = add_caches d context (suc index) nodes w1 in
      (add_mount node volume ∷ rest, w2)

  abbrev pub default_nodes : List KindNode → List KindNode
  default_nodes [] = record { extra_mounts = [] } ∷ []
  default_nodes (n ∷ nodes) = n ∷ nodes

  -- `DefaultKINDContext`
  abbrev pub context_or_default : Bytes → Bytes
  context_or_default context = if is_empty context then codes "kind" else context

  unfoldable pub add_node_caches :
      m.Docker → List KindNode → H → o.World → (List KindNode × H) × o.World
  unfolding add_caches
  add_node_caches d nodes h w =
      let context = context_or_default h.test_suite.kind_context in
      let (cached, w') = add_caches d context 0 (default_nodes nodes) w in
      if not h.test_suite.kind_node_cache
      then ((nodes, h), w)
      else ((cached, record h { test_suite = record h.test_suite { kind_context = context } }), w')

  -- `RunKIND`, from its end to its start. `context` is that of the cluster, which has been made
  -- before the default is filled in.
  unfoldable pub containers_added : H → Option Error × o.World → Ran o m m.Config
  unfolding kubeconfig_path
  containers_added h (some e, w) = ((err e, h), w)
  containers_added h (none, w) = let (r, w') = m.build_config (kubeconfig_path h) w in ((r, h), w')

  unfoldable pub kind_started : m.Docker → H → Option Error × o.World → Ran o m m.Config
  unfolding containers_added
  kind_started d h (some e, w) = ((err e, h), w)
  kind_started d h (none, w) =
      containers_added h (m.add_containers d h.test_suite.kind_containers w)

  unfoldable pub run_nodes : Bytes → m.Docker → (List KindNode × H) × o.World → Ran o m m.Config
  unfolding kind_started
  run_nodes context d ((nodes, h), w) = kind_started d h (m.kind_run context nodes w)

  unfoldable pub docker_found : Bytes → List KindNode → Ran o m m.Docker → Ran o m m.Config
  unfolding run_nodes add_node_caches
  docker_found context nodes ((err e, h), w) = ((err e, h), w)
  docker_found context nodes ((ok d, h), w) = run_nodes context d (add_node_caches d nodes h w)

  unfoldable pub kind_configured : Bytes → H → Result (List KindNode) × o.World → Ran o m m.Config
  unfolding docker_found docker_client
  kind_configured context h (err e, w) = ((err e, h), w)
  kind_configured context h (ok nodes, w) = docker_found context nodes (docker_client h w)

  abbrev pub kind_nodes : H → o.World → Result (List KindNode) × o.World
  kind_nodes h w =
      if not (is_empty h.test_suite.kind_config)
      then m.read_kind_config h.test_suite.kind_config w
      else (ok [], w)

  unfoldable pub kind_checked : H → Bool × o.World → Ran o m m.Config
  unfolding kind_configured
  kind_checked h (true, w) = (
    (
      err (plain (wrapping (codes "KIND is already running, unable to start"))),
      record h { kind = false },
    ),
    w,
  )
  kind_checked h (false, w) =
      kind_configured h.test_suite.kind_context (record h { kind = true }) (kind_nodes h w)

  unfoldable pub temp_made : (Option Error × H) × o.World → Ran o m m.Config
  unfolding kind_checked
  temp_made ((some e, h), w) = ((err e, h), w)
  temp_made ((none, h), w) = kind_checked h (m.kind_is_running h.test_suite.kind_context w)

  unfoldable pub run_kind : H → o.World → Ran o m m.Config
  unfolding temp_made init_temp_path containers_added
  run_kind h w = if h.kind then containers_added h (none, w) else temp_made (init_temp_path h w)
