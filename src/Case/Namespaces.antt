-- ===== src/Case/Namespaces.antt =====
-- internal/testcase/case.go: how a case creates its namespace and deletes it again. The deadline of
-- a single call is the matter of the client; that of the wait for the deletion is written out.
use kuttl.Common.{
  ℕ, ◌*◌, Bool, true, false, not, Option, none, some, List, [], ◌∷◌, ◌++◌, if◌then◌else◌, ◌&&◌,
}
use kuttl.Common.Int.{ℤ}
use kuttl.Common.Text.{Bytes, codes}
use kuttl.Logger.{TestLogger}
use kuttl.Kube.Errors.{
  Error, Result, ok, err, wrapped, has_reason, is_not_found, already_exists, forbidden,
  failed_to_delete_namespace, waiting_for_deletion_timed_out, failed_to_create_test_namespace,
  cannot_create_namespace,
}
use kuttl.Kube.Objects.{Gvk, Object}
use kuttl.Kube.Outside.{Outside}
use kuttl.Step.Apply.{new_resource}
use kuttl.Step.Create.{create_deadline}
use kuttl.Case.{Namespace}
use kuttl.Case.Clients.{ClientWithKubeConfig, logf, wrapf}

abbrev pub namespace_gvk : Gvk
namespace_gvk = record { group = []; version = codes "v1"; kind = codes "Namespace" }

abbrev pub poll_interval : ℕ
poll_interval = 100 * (1000 * 1000)

module _ (o : Outside) where
  -- The clean-up that `createNamespace` registers: the client, and whether the namespace existed.
  pub record CleanUp : Type 0 where
    pub client : ClientWithKubeConfig o
    pub existed : Bool

  -- What a case leaves with its test: the lines of its logger, the clean-ups of namespaces, the last registered
  -- first, the objects whose deletion its steps have registered, the first first, and the errors, the first first. `fatal` is the error that ended the test, if one did.
  pub record Testing : Type 0 where
    pub logger : TestLogger
    pub clean_ups : List CleanUp
    pub object_clean_ups : List Object
    pub errors : List Error
    pub fatal : Option Error

  abbrev pub say : ClientWithKubeConfig o → Testing → Bytes → Testing
  say cl t text = record t { logger = logf o cl t.logger text }

  module _ (ns : Namespace) where
    abbrev namespace_text : Bytes → Bytes → Bytes
    namespace_text before after = before ++ (o.quoted ns.name ++ after)

    -- The condition of the wait in `deleteNamespace`.
    unfoldable pub gone :
        ClientWithKubeConfig o
        → TestLogger
        → Result Object × o.World
        → Bool × (o.World × TestLogger)
    unfolding logf
    gone cl logger (ok actual, w) = (false, (w, logger))
    gone cl logger (err e, w) = if is_not_found e then (true, (w, logger)) else (
      false,
      (
        w,
        logf o cl logger (
            namespace_text (codes "failed to check deletion of namespace ")
              (codes " (will retry): " ++ o.error_text e)),
      ),
    )

    abbrev pub get_namespace : ClientWithKubeConfig o → o.World → Result Object × o.World
    get_namespace cl w = o.get cl.client namespace_gvk (record { namespace = []; name = ns.name }) w

    unfoldable pub waited :
        Bytes
        → Option (Option Error × (o.World × TestLogger))
        → Option ((Option Error × TestLogger) × o.World)
    unfolding wrapf
    waited path none = none
    waited path (some (e, (w, logger))) =
        some ((wrapf (waiting_for_deletion_timed_out ns.name) path e, logger), w)

    unfoldable pub wait_until_gone :
        ClientWithKubeConfig o
        → Option ℕ
        → TestLogger
        → o.World
        → Option ((Option Error × TestLogger) × o.World)
    unfolding gone waited
    wait_until_gone cl deadline logger w = waited cl.kube_config_path (
        o.poll_until_cancel poll_interval deadline (λ s. gone cl s.1 (get_namespace cl s.0))
          (w, logger))

    -- What follows the call of `Delete`.
    unfoldable pub deleted :
        ClientWithKubeConfig o
        → Option ℕ
        → TestLogger
        → Option Error × o.World
        → Option ((Option Error × TestLogger) × o.World)
    unfolding wait_until_gone logf wrapf
    deleted cl deadline logger (none, w) = wait_until_gone cl deadline logger w
    deleted cl deadline logger (some e, w) =
        if is_not_found e
        then wait_until_gone cl deadline
            (logf o cl logger (namespace_text (codes "Namespace ") (codes " already cleaned up.")))
            w
        else some
            ((wrapf (failed_to_delete_namespace ns.name) cl.kube_config_path (some e), logger), w)

    -- `deleteNamespace`, on the case's timeout. `none` is a wait that never ends.
    unfoldable pub delete_namespace :
        ℤ
        → ClientWithKubeConfig o
        → TestLogger
        → o.World
        → Option ((Option Error × TestLogger) × o.World)
    unfolding deleted create_deadline logf new_resource
    delete_namespace timeout cl logger w =
        deleted cl (create_deadline timeout (o.now w))
          (logf o cl logger (namespace_text (codes "Deleting namespace ") []))
          (o.delete cl.client (new_resource namespace_gvk ns.name) w)

    -- What follows the call of `Get` in `didNsExist`, after the creation was forbidden.
    unfoldable pub existence_checked :
        ClientWithKubeConfig o
        → Error
        → Testing
        → Result Object × o.World
        → (Result Bool × Testing) × o.World
    unfolding logf
    existence_checked cl e t (ok actual, w) =
        ((ok true, say cl t (namespace_text (codes "Namespace ") (codes " already exists"))), w)
    existence_checked cl e t (err get_err, w) =
        if is_not_found get_err
        then ((err (wrapped (cannot_create_namespace ns.name) e), t), w)
        else (
          (
            ok true,
            say cl t (
                namespace_text (codes "Namespace ") (
                  codes " creation forbidden ("
                  ++ (o.error_text e
                      ++ (codes ") and cannot check its existence: " ++ o.error_text get_err)))),
          ),
          w,
        )

    unfoldable pub did_ns_exist :
        Option Error
        → ClientWithKubeConfig o
        → Testing
        → o.World
        → (Result Bool × Testing) × o.World
    unfolding existence_checked logf
    did_ns_exist none cl t w = ((ok false, t), w)
    did_ns_exist (some e) cl t w =
        if has_reason already_exists e
        then (
          (ok true, say cl t (namespace_text (codes "Namespace ") (codes " already exists"))),
          w,
        )
        else if has_reason forbidden e
        then existence_checked cl e t (get_namespace cl w)
        else ((err e, t), w)

    -- The end of `createNamespace`.
    unfoldable pub register :
        Bool
        → ClientWithKubeConfig o
        → (Result Bool × Testing) × o.World
        → (Option Error × Testing) × o.World
    register skip_delete cl ((err e, t), w) =
        ((some (wrapped (failed_to_create_test_namespace ns.name) e), t), w)
    register skip_delete cl ((ok existed, t), w) =
        if not skip_delete
        then (
          (none, record t { clean_ups = record { client = cl; existed = existed } ∷ t.clean_ups }),
          w,
        )
        else ((none, t), w)

    unfoldable pub created :
        Bool
        → ClientWithKubeConfig o
        → Testing
        → Option Error × o.World
        → (Option Error × Testing) × o.World
    unfolding did_ns_exist register
    created skip_delete cl t (e, w) = register skip_delete cl (did_ns_exist e cl t w)

    unfoldable pub create_namespace :
        Bool → ClientWithKubeConfig o → Testing → o.World → (Option Error × Testing) × o.World
    unfolding created logf new_resource
    create_namespace skip_delete cl t w =
        created skip_delete cl (say cl t (namespace_text (codes "Creating namespace ") []))
          (o.create cl.client (new_resource namespace_gvk ns.name) w)

    -- What a clean-up leaves of its test.
    unfoldable pub cleaned :
        Testing → Option ((Option Error × TestLogger) × o.World) → Option (Testing × o.World)
    cleaned t none = none
    cleaned t (some ((none, logger), w)) = some (record t { logger = logger }, w)
    cleaned t (some ((some e, logger), w)) =
        some (record t { logger = logger; errors = t.errors ++ (e ∷ []) }, w)

    -- The function that `createNamespace` registers.
    unfoldable pub run_clean_up : ℤ → CleanUp → Testing → o.World → Option (Testing × o.World)
    unfolding delete_namespace cleaned logf
    run_clean_up timeout c t w =
        let after = cleaned t (delete_namespace timeout c.client t.logger w) in
        if ns.user_supplied && c.existed
        then some (
          say c.client t
              (codes "Skipping deletion of pre-existing user supplied namespace " ++ ns.name),
          w,
        )
        else after
