-- ===== src/Kube/Outside.antt =====
-- What kuttl does not implement: the API server behind its clients, the conversions of the
-- Kubernetes libraries, processes, and the clock. A call changes the world and may fail; nothing
-- more is assumed of it here.
use kuttl.Common.{ℕ, Bool, false, Option, none, some, List}
use kuttl.Common.Text.{Bytes}
use kuttl.Common.Int.{ℤ}
use kuttl.Common.Dict.{Dict}
use kuttl.Subset.{Value}
use kuttl.Kube.Errors.{Error, Result, ok, err, LastCheck}
use kuttl.Logger.{TestLogger}
use kuttl.Kube.Objects.{Event, EventApi, Gvk, ObjectKey, Object, ApiResource}

-- Where a client comes from: the harness, or a kubeconfig file with a context.
pub data Source : Type 0 where
  harness : Source
  kubeconfig : Bytes → Bytes → Source

pub record Outside : Type 1 where
  pub World : Type 0
  pub Client : Type 0
  pub Discovery : Type 0
  -- `Client(forceNew)` and `DiscoveryClient()`
  pub client : Source → Bool → World → Result Client × World
  pub discovery : Source → World → Result Discovery × World
  -- The methods of a client. `none` is a nil error.
  pub get : Client → Gvk → ObjectKey → World → Result Object × World
  pub list : Client → Gvk → Bytes → Dict Bytes Bytes → World → Result (List Object) × World
  pub delete : Client → Object → World → Option Error × World
  pub create : Client → Object → World → Option Error × World
  -- A merge patch of the first object, with the second as its content.
  pub patch : Client → Object → Object → World → Option Error × World
  pub list_events : Client → EventApi → Bytes → World → Result (List Event) × World
  pub server_resources : Discovery → Bytes → World → Result (List ApiResource) × World
  -- `schema.FromAPIVersionAndKind`
  pub parse_gvk : Bytes → Bytes → Gvk
  -- `ToUnstructured`
  pub to_unstructured : Object → Result Value
  -- `wait.PollUntilContextTimeout`: the interval and the duration, and the condition, which has a
  -- variable of its own. It is checked once at the start.
  pub poll :
      ℕ
      → ℤ
      → (World × LastCheck → Result Bool × (World × LastCheck))
      → World × LastCheck
      → Option Error × (World × LastCheck)
  -- `wait.PollUntilContextCancel`, with the deadline of the context, on a condition that logs and
  -- returns no error. `none` is a poll that never ends.
  pub poll_until_cancel :
      ℕ
      → Option ℕ
      → (World × TestLogger → Bool × (World × TestLogger))
      → World × TestLogger
      → Option (Option Error × (World × TestLogger))
  -- How an error, a string in quotes, and a time are printed.
  pub error_text : Error → Bytes
  pub quoted : Bytes → Bytes
  pub time_text : ℕ → Bytes
  -- Nanoseconds, and the wait between two attempts.
  pub now : World → ℕ
  pub sleep : ℕ → World → World
  -- For a context with a deadline: that `Err` is `DeadlineExceeded` now, and that a `select` which
  -- waits for the context and for a call takes the case of the context when that call ends. Go
  -- leaves open which case it takes if both are ready. A context without a deadline never expires.
  pub expired : ℕ → World → Bool
  pub selects_done : ℕ → World → Bool

module _ (o : Outside) where
  -- `none` is a context without a deadline.
  abbrev pub context_expired : Option ℕ → o.World → Bool
  context_expired none w = false
  context_expired (some t) w = o.expired t w

  abbrev pub context_selected : Option ℕ → o.World → Bool
  context_selected none w = false
  context_selected (some t) w = o.selects_done t w

  abbrev pub Act {ℓ} : Type ℓ → Type ℓ
  Act A = o.World → A × o.World

-- `if err != nil { return err }` after a call.
infixl 5 ◌>>=◌
abbrev pub ◌>>=◌ {ℓ κ} :
    {W : Type 0} {A : Type ℓ} {B : Type κ}
    → (W → Result A × W)
    → (A → W → Result B × W)
    → W
    → Result B × W
◌>>=◌ m f w = let (r, w') = m w in elim r [ ok a ↦ f a w' | err e ↦ (err e, w') ]

-- A conversion that the world takes no part in.
abbrev pub pure_result {ℓ} : {W : Type 0} {A : Type ℓ} → Result A → W → Result A × W
pure_result r w = (r, w)
