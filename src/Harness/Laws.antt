-- ===== src/Harness/Laws.antt =====
-- What the harness keeps.
pub mod Teardown
pub mod Whole
pub mod Setup
pub mod Fetching
pub mod RunTests
pub mod AllTested
use mathlib.Core.Path.{subst}
use kuttl.Common.{
  ℕ, Bool, true, false, Option, none, some, List, [], ◌∷◌, ◌≡◌, ◌≢◌, refl, sym, ap, ◌∙◌, inl, inr,
  arith, Bool-cases, Option-cases, is_some, if◌then◌else◌,
}
use kuttl.Common.Text.{Bytes, is_empty}
use kuttl.Report.{Testsuites, set_failure}
use kuttl.Kube.Errors.{Error, Result, ok, err}
use kuttl.Kube.Outside.{Outside}
use kuttl.Harness.{TestSuite, Machines, Harness, Ran, report_name}
use kuttl.Harness.Connection.{
  choose_config, kubeconfig_written, cluster_ready, waited, config_chosen, config_or, config,
  store_client, connect, client_or, client,
}
use kuttl.Harness.Stop.{
  Ending, returned, test_ended, panicked, Stopped, before_report, stop_kind, stop_env, tear_down,
  after_report, report_written, write_suites, report_with, stop_with, fatal_again, test_fails,
  fail_suites, fatal, stop,
}

module _ (o : Outside) (m : Machines o) where
  abbrev H : Type 0
  H = Harness o m

  -- An answer is what the harness keeps.
  abbrev KeepsConfig : Ran o m m.Config → Type 0
  KeepsConfig ((err e, h), w) = Unit
  KeepsConfig ((ok c, h), w) = h.config ≡ some c

  kubeconfig_written-KeepsConfig :
      (c : m.Config) (h : H) (r : Option Error × o.World)
      → h.config ≡ some c
      → KeepsConfig (kubeconfig_written o m c h r)
  unfolding kubeconfig_written
  kubeconfig_written-KeepsConfig c h (some e, w) k = tt
  kubeconfig_written-KeepsConfig c h (none, w) k = k

  cluster_ready-KeepsConfig :
      (c : m.Config) (h : H) (r : Option Error × o.World)
      → h.config ≡ some c
      → KeepsConfig (cluster_ready o m c h r)
  unfolding cluster_ready
  cluster_ready-KeepsConfig c h (some e, w) k = tt
  cluster_ready-KeepsConfig c h (none, w) k =
      kubeconfig_written-KeepsConfig c h (m.write_kubeconfig c w) k

  config_chosen-KeepsConfig : (r : Ran o m m.Config) → KeepsConfig (config_chosen o m r)
  unfolding config_chosen
  config_chosen-KeepsConfig ((err e, h), w) = tt
  config_chosen-KeepsConfig ((ok c, h), w) =
      let h' = record h { config = some c } in
      cluster_ready-KeepsConfig c h' (waited o m c h w) refl

  config_or-KeepsConfig :
      (stored : Option m.Config) (h : H) (w : o.World)
      → h.config ≡ stored
      → KeepsConfig (config_or o m stored h w)
  unfolding config_or
  config_or-KeepsConfig (some c) h w k = k
  config_or-KeepsConfig none h w k =
      config_chosen-KeepsConfig (choose_config o m h.test_suite.config h w)

  -- After a call of Config without an error, each call gives the same configuration, changes nothing, and does not ask the
  -- cluster.
  pub config-config :
      (h h' : H) (w w' : o.World) (c : m.Config)
      → config o m h w ≡ ((ok c, h'), w')
      → (v : o.World) → config o m h' v ≡ ((ok c, h'), v)
  unfolding config config_or
  config-config h h' w w' c e v =
      rw (subst (λ r. KeepsConfig r) e (config_or-KeepsConfig h.config h w refl)) refl

  abbrev KeepsClient : Ran o m (Option o.Client) → Type 0
  KeepsClient ((err e, h), w) = Unit
  KeepsClient ((ok cl, h), w) = h.client ≡ some cl

  store_client-KeepsClient :
      (h : H) (r : Result o.Client × o.World) → KeepsClient (store_client o m h r)
  unfolding store_client
  store_client-KeepsClient h (ok cl, w) = refl
  store_client-KeepsClient h (err e, w) = tt

  connect-KeepsClient : (r : Ran o m m.Config) → KeepsClient (connect o m r)
  unfolding connect
  connect-KeepsClient ((err e, h), w) = tt
  connect-KeepsClient ((ok c, h), w) = store_client-KeepsClient h (m.new_client c w)

  client_or-KeepsClient :
      (stored : Option (Option o.Client)) (force : Bool) (h : H) (w : o.World)
      → h.client ≡ stored
      → KeepsClient (client_or o m stored force h w)
  unfolding client_or
  client_or-KeepsClient (some cl) false h w k = k
  client_or-KeepsClient (some cl) true h w k = connect-KeepsClient (config o m h w)
  client_or-KeepsClient none force h w k = connect-KeepsClient (config o m h w)

  -- After a call of Client without an error, forced or not, each call that does not ask for a new client gives the same
  -- one and changes nothing.
  pub client-client :
      (force : Bool) (h h' : H) (w w' : o.World) (cl : Option o.Client)
      → client o m force h w ≡ ((ok cl, h'), w')
      → (v : o.World) → client o m false h' v ≡ ((ok cl, h'), v)
  unfolding client client_or
  client-client force h h' w w' cl e v =
      rw (subst (λ r. KeepsClient r) e (client_or-KeepsClient h.client force h w refl)) refl

  connects :
      (stored : Option (Option o.Client)) (force : Bool) (h : H) (w : o.World)
      → stored ≡ none
      → client_or o m stored force h w ≡ connect o m (config o m h w)
  unfolding client_or
  connects none force h w k = refl
  connects (some cl) force h w k = ground arith

  -- If the configuration is given but the client for it cannot be made, a forced call of Client gives the
  -- error, and each later call that is not forced gives a nil pointer without an error.
  pub client_nil_pointer :
      (h h' : H) (w w1 w2 : o.World) (c : m.Config) (e : Error)
      → h.client ≡ none
      → config o m h w ≡ ((ok c, h'), w1)
      → m.new_client c w1 ≡ (err e, w2)
      → (force : Bool)
      → ((client o m force h w).0.0 ≡ err e)
        × ((v : o.World) → (client o m false (client o m force h w).0.1 v).0.0 ≡ ok none)
  unfolding client client_or connect store_client
  client_nil_pointer h h' w w1 w2 c e fresh configured refused force =
      let ends : client o m force h w ≡ ((err e, record h' { client = some none }), w2) =
        connects h.client force h w fresh
        ∙ (ap (connect o m) configured ∙ ap (store_client o m h') refused) in
      subst (λ r. (r.0.0 ≡ err e) × ((v : o.World) → (client o m false r.0.1 v).0.0 ≡ ok none))
        (sym ends) (refl, λ v. refl)
