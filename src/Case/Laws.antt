-- ===== src/Case/Laws.antt =====
-- What the clean-ups of a case do with its namespace.
pub mod Kept
pub mod Steps
use mathlib.Core.Path.{subst}
use kuttl.Common.{
  ℕ, Bool, true, false, not, Option, none, some, List, [], ◌∷◌, ◌++◌, ◌≡◌, refl, sym, ap, ◌⊎◌, inl,
  inr, arith, is_some, All, Option-cases, Bool-cases, if◌then◌else◌, ◌&&◌, ◌==◌,
}
use kuttl.Common.Int.{ℤ}
use kuttl.Common.Text.{Bytes, codes}
use kuttl.Logger.{TestLogger}
use kuttl.Expressions.{Cel}
use kuttl.Commands.{Shell}
use kuttl.Report.{Info}
use kuttl.Report.Reporter.{TestReporter}
use kuttl.Kube.Errors.{Error, Result, ok, err, is_not_found, has_reason, already_exists, forbidden}
use kuttl.Kube.Objects.{Object}
use kuttl.Kube.Outside.{Outside, harness}
use kuttl.Step.{Step}
use kuttl.Step.Apply.{new_resource}
use kuttl.Case.{Namespace, Case}
use kuttl.Api.{lazy}
use kuttl.Case.Clients.{ClientWithKubeConfig, Clients, get_eager_clients}
use kuttl.Case.Namespaces.{
  say, namespace_gvk, CleanUp, Testing, existence_checked, did_ns_exist, register, created,
  create_namespace, run_clean_up, get_namespace,
}
use kuttl.Case.Run.{
  Progress, Stepped, create_namespaces, clients_found, setup, lazy_client, prepare, run_prepared,
  stepped, run_steps, set_up, open_report, maybe_report_events, with_events, after_setup, with_done,
  run,
}

module _ (o : Outside) (ns : Namespace) where
  -- A clean-up that leaves the world as it is.
  abbrev pub IsHarmless : CleanUp o → Type 0
  IsHarmless c =
      (timeout : ℤ) (t : Testing o) (w : o.World)
      → (t' : Testing o) × (run_clean_up o ns timeout c t w ≡ some (t', w))

  abbrev pub AllHarmless : Testing o → Type 0
  AllHarmless t = All IsHarmless t.clean_ups

  -- No client can create the namespace.
  abbrev pub CannotCreate : Type 0
  CannotCreate =
      (cl : o.Client) (w : o.World)
      → is_some (o.create cl (new_resource namespace_gvk ns.name) w).0 ≡ true

  module _ (supplied : ns.user_supplied ≡ true) where
    existed-IsHarmless :
        (cl : ClientWithKubeConfig o) → IsHarmless (record { client = cl; existed = true })
    unfolding run_clean_up
    existed-IsHarmless cl timeout t w = (
      say o cl t (codes "Skipping deletion of pre-existing user supplied namespace " ++ ns.name),
      rw supplied refl,
    )

    -- What `didNsExist` says of a creation that failed.
    SaysExisted : Testing o → (Result Bool × Testing o) × o.World → Type 0
    SaysExisted t ((ok existed, t'), w) = (existed ≡ true) × (t'.clean_ups ≡ t.clean_ups)
    SaysExisted t ((err e, t'), w) = t'.clean_ups ≡ t.clean_ups

    existence_checked-SaysExisted :
        (cl : ClientWithKubeConfig o) (e : Error) (t : Testing o) (r : Result Object × o.World)
        → SaysExisted t (existence_checked o ns cl e t r)
    unfolding existence_checked SaysExisted
    existence_checked-SaysExisted cl e t (ok actual, w) = (refl, refl)
    existence_checked-SaysExisted cl e t (err f, w) = elim (Bool-cases (is_not_found f)) [
      | inl h ↦ rw h refl
      | inr h ↦ rw h (refl, refl)
    ]

    did_ns_exist-SaysExisted :
        (e : Error) (cl : ClientWithKubeConfig o) (t : Testing o) (w : o.World)
        → SaysExisted t (did_ns_exist o ns (some e) cl t w)
    unfolding did_ns_exist SaysExisted
    did_ns_exist-SaysExisted e cl t w = elim (Bool-cases (has_reason already_exists e)) [
      | inl h ↦ rw h (refl, refl)
      | inr h ↦ elim (Bool-cases (has_reason forbidden e)) [
        | inl k ↦ rw (h, k) (existence_checked-SaysExisted cl e t (get_namespace o ns cl w))
        | inr k ↦ rw (h, k) refl
      ]
    ]

    register-AllHarmless :
        (skip_delete : Bool) (cl : ClientWithKubeConfig o) (t : Testing o)
        (r : (Result Bool × Testing o) × o.World)
        → AllHarmless t
        → SaysExisted t r
        → AllHarmless (register o ns skip_delete cl r).0.1
    unfolding register SaysExisted
    register-AllHarmless skip_delete cl t ((err e, t'), w) h same = rw same h
    register-AllHarmless true cl t ((ok existed, t'), w) h (k, same) = rw same h
    register-AllHarmless false cl t ((ok existed, t'), w) h (k, same) =
        (rw k (existed-IsHarmless cl), rw same h)

    created-AllHarmless :
        (skip_delete : Bool) (cl : ClientWithKubeConfig o) (t : Testing o)
        (r : Option Error × o.World)
        → is_some r.0 ≡ true
        → AllHarmless t
        → AllHarmless (created o ns skip_delete cl t r).0.1
    unfolding created
    created-AllHarmless skip_delete cl t (none, w) some_error h = cc
    created-AllHarmless skip_delete cl t (some e, w) some_error h =
        register-AllHarmless skip_delete cl t _ h (did_ns_exist-SaysExisted e cl t w)

    pub create_namespace-AllHarmless :
        CannotCreate
        → (skip_delete : Bool) (cl : ClientWithKubeConfig o) (t : Testing o) (w : o.World)
        → AllHarmless t
        → AllHarmless (create_namespace o ns skip_delete cl t w).0.1
    unfolding create_namespace
    create_namespace-AllHarmless cannot skip_delete cl t w h =
        created-AllHarmless skip_delete cl _ _ (cannot cl.client w) h
