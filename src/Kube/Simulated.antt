-- ===== src/Kube/Simulated.antt =====
-- A small cluster with a clock, at which theorems about any outside world are tried.
use kuttl.Common.{
  ℕ, suc, ◌+◌, Bool, true, false, Option, none, some, List, [], ◌∷◌, if◌then◌else◌, ◌==◌, ◌&&◌, leb,
  ◌||◌,
}
use kuttl.Common.Text.{Bytes, text_eq, is_empty, codes, decimal}
use kuttl.Subset.{Value}
use kuttl.Kube.Errors.{Error, Result, ok, err, api, not_found, already_exists, deadline_exceeded}
use kuttl.Kube.Objects.{Payload, Gvk, Gvk_eq, Object, ObjectKey}
use kuttl.Kube.Outside.{Outside}

pub record Cluster : Type 0 where
  pub objects : List Object
  pub time : ℕ

abbrev pub later : Cluster → Cluster
later c = record c { time = suc c.time }

abbrev pub has_key : Gvk → ObjectKey → Object → Bool
has_key gvk key obj = obj.gvk == gvk && obj.name == key.name && obj.namespace == key.namespace

abbrev pub find_object : Gvk → ObjectKey → List Object → Result Object
find_object gvk key [] = err (api not_found)
find_object gvk key (obj ∷ objs) =
    let rest = find_object gvk key objs in if has_key gvk key obj then ok obj else rest

abbrev pub without : Gvk → ObjectKey → List Object → List Object
without gvk key [] = []
without gvk key (obj ∷ objs) =
    let rest = without gvk key objs in if has_key gvk key obj then rest else obj ∷ rest

abbrev pub of_kind : Gvk → Bytes → List Object → List Object
of_kind gvk namespace [] = []
of_kind gvk namespace (obj ∷ objs) =
    let rest = of_kind gvk namespace objs in
    if obj.gvk == gvk && (is_empty namespace || obj.namespace == namespace)
    then obj ∷ rest
    else rest

abbrev pub key_of : Object → ObjectKey
key_of obj = record { namespace = obj.namespace; name = obj.name }

abbrev pub poll_error : Result Bool → Option Error
poll_error (ok true) = none
poll_error (ok false) = some deadline_exceeded
poll_error (err e) = some e

-- Each call takes a tick. A poll checks once.
abbrev pub simulated : Outside
simulated = record {
  World = Cluster;
  Client = Unit;
  Discovery = Unit;
  client = λ source force_new c. (ok tt, c);
  discovery = λ source c. (ok tt, c);
  get = λ cl gvk key c. (find_object gvk key c.objects, later c);
  list = λ cl gvk namespace labels c. (ok (of_kind gvk namespace c.objects), later c);
  delete = λ cl obj c. elim (find_object obj.gvk (key_of obj) c.objects) [
    | err e ↦ (some e, later c)
    | ok found ↦
        (none, record { objects = without obj.gvk (key_of obj) c.objects; time = suc c.time })
  ];
  create = λ cl obj c. elim (find_object obj.gvk (key_of obj) c.objects) [
    | ok found ↦ (some (api already_exists), later c)
    | err e ↦ (none, record { objects = obj ∷ c.objects; time = suc c.time })
  ];
  patch = λ cl actual expected c. (
    none,
    record { objects = expected ∷ without actual.gvk (key_of actual) c.objects; time = suc c.time },
  );
  list_events = λ cl version namespace c. (ok [], later c);
  server_resources = λ d group_version c. (
    ok (
        record { kind = codes "Pod"; namespaced = true }
        ∷ record { kind = codes "Node"; namespaced = false }
        ∷ []),
    later c,
  );
  parse_gvk = λ api_version kind. record { group = []; version = api_version; kind = kind };
  to_unstructured = λ obj. ok obj.content;
  poll = λ interval duration check s. (poll_error (check s).0, (check s).1);
  poll_until_cancel = λ interval deadline check s.
      some (if (check s).0 then none else some deadline_exceeded, (check s).1);
  error_text = λ e. codes "error";
  quoted = λ s. s;
  time_text = decimal;
  now = λ c. c.time;
  sleep = λ t c. record c { time = c.time + t };
  expired = λ deadline c. leb deadline c.time;
  selects_done = λ deadline c. leb deadline c.time;
}

abbrev pub pod_gvk : Gvk
pod_gvk = record { group = []; version = codes "v1"; kind = codes "Pod" }

-- A pod whose namespace is still to be set
abbrev pub pod_web : Object
pod_web = record {
  gvk = pod_gvk;
  name = codes "web";
  namespace = [];
  labels = [];
  resource_version = [];
  content = Value.null;
  payload = Payload.unstructured;
}
