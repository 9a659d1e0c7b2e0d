-- ===== src/Case/Clients.antt =====
-- internal/testcase/client.go: clients that say in their messages which kubeconfig they use, and
-- the clients of a case for its steps that are not loaded lazily.
use kuttl.Common.{
  Bool, true, false, Option, none, some, List, [], ◌∷◌, ◌++◌, if◌then◌else◌, ◌==◌, ◌||◌, is_some,
}
use kuttl.Common.Text.{Bytes, codes, is_empty, text_eq}
use kuttl.Common.Dict.{Dict, lookup, insert}
use kuttl.Api.{lazy}
use kuttl.Logger.{TestLogger, log}
use kuttl.Kube.Errors.{Error, Result, ok, err, Message, wrapped}
use kuttl.Kube.Outside.{Outside, harness, kubeconfig}
use kuttl.Step.{Step}

-- A message about an action on a namespace, with the namespace and a note about the kubeconfig.
unfoldable pub wrapf : (Bytes → Message) → Bytes → Option Error → Option Error
wrapf message path none = none
wrapf message path (some e) = some (wrapped (message path) e)

module _ (o : Outside) where
  -- `clientWithKubeConfig`. Its logger is that of the case.
  pub record ClientWithKubeConfig : Type 0 where
    pub client : o.Client
    pub kube_config_path : Bytes

  -- `getKubeConfigInfo`
  unfoldable pub get_kube_config_info : Bytes → Bytes
  get_kube_config_info path =
      if is_empty path then [] else codes " (using kubeconfig " ++ (o.quoted path ++ codes ")")

  -- `Logf`, with the text that it formats
  unfoldable pub logf : ClientWithKubeConfig → TestLogger → Bytes → TestLogger
  unfolding get_kube_config_info log
  logf cl logger text = log logger (text ++ get_kube_config_info cl.kube_config_path)

  -- The rest of the loop of `getEagerClients` goes on with what a call of `NewClientFunc` gives.
  abbrev pub Clients : Type 0
  Clients = Dict Bytes o.Client

  unfoldable pub add_client : Bytes → Clients → Result o.Client × o.World → Result Clients × o.World
  add_client path clients (err e, w) = (err e, w)
  add_client path clients (ok cl, w) = (ok (insert path cl clients), w)

  unfoldable pub is_eager : {P : Type 0} → Clients → Step P → Bool
  is_eager clients s =
      if is_some (lookup s.kubeconfig clients) || s.kubeconfig_loading == lazy then false else true

  -- One round of the loop, and the loop.
  unfoldable pub eager_client : {P : Type 0} → Step P → Clients → o.World → Result Clients × o.World
  unfolding is_eager add_client
  eager_client s clients w =
      let added =
        add_client s.kubeconfig clients (o.client (kubeconfig s.kubeconfig s.context) false w) in
      if is_eager clients s then added else (ok clients, w)

  unfoldable pub eager_clients :
      {P : Type 0} → List (Step P) → Result Clients × o.World → Result Clients × o.World
  unfolding eager_client
  eager_clients steps (err e, w) = (err e, w)
  eager_clients [] (ok clients, w) = (ok clients, w)
  eager_clients (s ∷ steps) (ok clients, w) = eager_clients steps (eager_client s clients w)

  unfoldable pub with_paths : Clients → List ClientWithKubeConfig
  with_paths [] = []
  with_paths ((path, cl) ∷ clients) =
      record { client = cl; kube_config_path = path } ∷ with_paths clients

  -- The end of `getEagerClients`. `order` is the order of an iteration over the map.
  unfoldable pub clients_with_paths :
      (Clients → Clients) → Result Clients × o.World → Result (List ClientWithKubeConfig) × o.World
  unfolding with_paths
  clients_with_paths order (err e, w) = (err e, w)
  clients_with_paths order (ok clients, w) = (ok (with_paths (order clients)), w)

  unfoldable pub get_eager_clients :
      {P : Type 0}
      → (Clients → Clients)
      → List (Step P)
      → o.World
      → Result (List ClientWithKubeConfig) × o.World
  unfolding clients_with_paths eager_clients add_client
  get_eager_clients order steps w =
      clients_with_paths order (eager_clients steps (add_client [] [] (o.client harness false w)))
