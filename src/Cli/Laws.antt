-- ===== src/Cli/Laws.antt =====
-- What holds of the options that the command `test` runs with.
use mathlib.Core.Path.{subst}
use kuttl.Common.{
  true, false, not, ◌&&◌, ◌||◌, Option, none, some, List, [], ◌∷◌, ◌++◌, map, ◌≡◌, ◌⊎◌, refl, sym,
  inl, inr, arith, ◌==◌, ==→eq, ap, ◌∙◌, contains, Bool-cases, is_some,
}
use kuttl.Common.Text.{Bytes, codes, is_empty, text_eq, to_lower, trim_space}
use kuttl.Common.Dict.{Dict}
use kuttl.Subset.{Value}
use kuttl.Kube.Errors.{Result, ok, Result-cases}
use kuttl.Kube.Objects.{Object}
use kuttl.Loading.{Files}
use kuttl.Harness.{TestSuite}
use kuttl.Cli.{
  Flags, given, add_lower, lower_set, suppressed_with, report_type, format_with, bad_granularity,
  blank_namespace, has_no_dirs, dirs_with, or_default, config_path, parse_vars, with_clusters,
  with_deletion, with_granularity, with_cases, override, load_options, pre_run,
}

contains-add_lower :
    (s t : Bytes) (texts : List Bytes)
    → contains (add_lower s texts) t ≡ (t == to_lower s || contains texts t)
unfolding add_lower
contains-add_lower s t texts = elim (Bool-cases (contains texts (to_lower s))) [
  | inl old ↦ elim (Bool-cases (t == to_lower s)) [
    | inl same ↦ rw (old, same, ==→eq t (to_lower s) same) old
    | inr other ↦ rw (old, other) refl
  ]
  | inr new ↦ rw new refl
]

contains-lower_set :
    (t : Bytes) (texts : List Bytes)
    → contains (lower_set texts) t ≡ contains (map to_lower texts) t
unfolding lower_set
contains-lower_set t [] = refl
contains-lower_set t (s ∷ texts) =
    contains-add_lower s t (lower_set texts)
    ∙ ap (λ b. t == to_lower s || b) (contains-lower_set t texts)

module _ (Config : Type 0) where
  abbrev S : Type 0
  S = TestSuite Config

  abbrev Final : Flags → List Bytes → S → S
  Final f args base =
      with_cases Config f args
        (with_granularity Config f (with_deletion Config f (with_clusters Config f base)))

  override-ok :
      (f : Flags) (args : List Bytes) (base s : S)
      → override Config f args base ≡ ok s
      → ((with_clusters Config f base).start_control_plane
            && (with_clusters Config f base).start_kind
          ≡ false)
        × (((with_clusters Config f base).attach_control_plane_output
              && not (with_clusters Config f base).start_control_plane)
            ≡ false)
        × (bad_granularity f.report_granularity ≡ false)
        × (blank_namespace f.namespace ≡ false)
        × (has_no_dirs (Final f args base).test_dirs ≡ false)
        × (s ≡ Final f args base)
  unfolding override
  override-ok f args base s h = ground arith

  -- A format of reports that a flag can choose.
  abbrev pub IsFormat : Bytes → Type 0
  IsFormat format = (format ≡ []) ⊎ ((format ≡ codes "json") ⊎ (format ≡ codes "xml"))

  -- What the flags, the arguments and the options of the file say of the options that are run. The
  -- record has a field for each thing that a flag can say.
  pub record Overridden (f : Flags) (args : List Bytes) (base s : S) : Type 0 where
    pub crd_dir : s.crd_dir ≡ given f.crd_dir base.crd_dir
    pub manifest_dirs : s.manifest_dirs ≡ given f.manifest_dirs base.manifest_dirs
    pub control_plane : s.start_control_plane ≡ given f.start_control_plane base.start_control_plane
    pub kind : f.kind_config ≡ none → s.start_kind ≡ given f.start_kind base.start_kind
    pub kind_by_config : is_some f.kind_config ≡ true → s.start_kind ≡ true
    pub kind_config : s.kind_config ≡ given f.kind_config base.kind_config
    pub only_one : (s.start_control_plane && s.start_kind) ≡ false
    pub attach :
        s.attach_control_plane_output
        ≡ given f.attach_control_plane_output base.attach_control_plane_output
    pub attached : s.attach_control_plane_output ≡ true → s.start_control_plane ≡ true
    pub context :
        is_empty (given f.kind_context base.kind_context) ≡ false
        → s.kind_context ≡ given f.kind_context base.kind_context
    pub default_context :
        is_empty (given f.kind_context base.kind_context) ≡ true → s.kind_context ≡ codes "kind"
    pub skip_delete :
        s.skip_delete ≡ given f.skip_delete (s.start_control_plane || base.skip_delete)
    pub skip_cluster_delete :
        s.skip_cluster_delete ≡ given f.skip_cluster_delete base.skip_cluster_delete
    pub parallel : s.parallel ≡ given f.parallel base.parallel
    pub format_kept : f.report ≡ none → s.report_format ≡ base.report_format
    pub format_known : is_some f.report ≡ true → IsFormat s.report_format
    pub format_named :
        (format : Bytes)
        → f.report ≡ some format
        → (to_lower format ≡ codes "json") ⊎ (to_lower format ≡ codes "xml")
        → s.report_format ≡ to_lower format
    pub report_name : s.report_name ≡ given f.report_name base.report_name
    pub granularity : s.report_granularity ≡ given f.report_granularity base.report_granularity
    pub granularity_known :
        is_some f.report_granularity ≡ true
        → (s.report_granularity ≡ codes "step") ⊎ (s.report_granularity ≡ codes "test")
    pub artifacts_dir : s.artifacts_dir ≡ given f.artifacts_dir base.artifacts_dir
    pub namespace : s.namespace ≡ given f.namespace base.namespace
    pub namespace_not_blank : is_some f.namespace ≡ true → is_empty (trim_space s.namespace) ≡ false
    pub suppress_kept : f.suppress_log ≡ none → s.suppress ≡ base.suppress
    pub suppress_joined :
        (more : List Bytes) (t : Bytes)
        → f.suppress_log ≡ some more
        → contains s.suppress t ≡ contains (map to_lower (base.suppress ++ more)) t
    pub timeout : s.timeout ≡ given f.timeout base.timeout
    pub test_dirs : s.test_dirs ≡ dirs_with args base.test_dirs
    pub has_dirs : has_no_dirs s.test_dirs ≡ false
    pub commands : s.commands ≡ base.commands

  given_granularity_known :
      (g : Option Bytes) (r : Bytes)
      → bad_granularity g ≡ false
      → is_some g ≡ true
      → (given g r ≡ codes "step") ⊎ (given g r ≡ codes "test")
  unfolding bad_granularity
  given_granularity_known none r h k = ground arith
  given_granularity_known (some g) r h k = elim (Bool-cases (g == codes "step")) [
    | inl same ↦ inl (==→eq g (codes "step") same)
    | inr other ↦ inr (==→eq g (codes "test") (ground arith))
  ]

  report_type-IsFormat : (format : Bytes) → IsFormat (report_type format)
  unfolding report_type
  report_type-IsFormat format = elim (Bool-cases (format == codes "json")) [
    | inl same ↦ inr (inl (rw same (==→eq format (codes "json") same)))
    | inr other ↦ elim (Bool-cases (format == codes "xml")) [
      | inl same ↦ inr (inr (rw (other, same) (==→eq format (codes "xml") same)))
      | inr other' ↦ inl (rw (other, other') refl)
    ]
  ]

  report_type-named :
      (format : Bytes)
      → (format ≡ codes "json") ⊎ (format ≡ codes "xml")
      → report_type format ≡ format
  unfolding report_type text_eq
  report_type-named format (inl json) = rw json refl
  report_type-named format (inr xml) = rw xml refl

  format_with-IsFormat :
      (flag : Option Bytes) (format : Bytes)
      → is_some flag ≡ true
      → IsFormat (format_with flag format)
  format_with-IsFormat none format h = ground arith
  format_with-IsFormat (some g) format h = report_type-IsFormat (to_lower g)

  given_namespace_lem :
      (ns : Option Bytes) (old : Bytes)
      → blank_namespace ns ≡ false
      → is_some ns ≡ true
      → is_empty (trim_space (given ns old)) ≡ false
  unfolding blank_namespace
  given_namespace_lem none old h k = ground arith
  given_namespace_lem (some ns) old h k = h

  suppressed_with_lem :
      (flag : Option (List Bytes)) (old more : List Bytes) (t : Bytes)
      → flag ≡ some more
      → contains (suppressed_with flag old) t ≡ contains (map to_lower (old ++ more)) t
  suppressed_with_lem flag old more t h = rw h (contains-lower_set t (old ++ more))

  or_default-given : (context : Bytes) → is_empty context ≡ false → or_default context ≡ context
  or_default-given [] h = ground arith
  or_default-given (c ∷ s) h = refl

  or_default-nil : (context : Bytes) → is_empty context ≡ true → or_default context ≡ codes "kind"
  or_default-nil [] h = refl
  or_default-nil (c ∷ s) h = ground arith

  Final-Overridden :
      (f : Flags) (args : List Bytes) (base : S)
      → ((with_clusters Config f base).start_control_plane
            && (with_clusters Config f base).start_kind
          ≡ false)
      → ((with_clusters Config f base).attach_control_plane_output
          && not (with_clusters Config f base).start_control_plane)
        ≡ false
      → bad_granularity f.report_granularity ≡ false
      → blank_namespace f.namespace ≡ false
      → has_no_dirs (Final f args base).test_dirs ≡ false
      → Overridden f args base (Final f args base)
  unfolding with_clusters with_deletion with_granularity with_cases
  Final-Overridden f args base one attach g n dirs = record {
    crd_dir = refl;
    manifest_dirs = refl;
    control_plane = refl;
    kind = λ h. rw h refl;
    kind_by_config = λ h. rw h refl;
    kind_config = refl;
    only_one = one;
    attach = refl;
    attached = λ h. ground arith;
    context = or_default-given (given f.kind_context base.kind_context);
    default_context = or_default-nil (given f.kind_context base.kind_context);
    skip_delete = refl;
    skip_cluster_delete = refl;
    parallel = refl;
    format_kept = λ h. rw h refl;
    format_known = format_with-IsFormat f.report base.report_format;
    format_named = λ format h k. rw h (report_type-named (to_lower format) k);
    report_name = refl;
    granularity = refl;
    granularity_known = given_granularity_known f.report_granularity base.report_granularity g;
    artifacts_dir = refl;
    namespace = refl;
    namespace_not_blank = given_namespace_lem f.namespace base.namespace n;
    suppress_kept = λ h. rw h refl;
    suppress_joined = suppressed_with_lem f.suppress_log base.suppress;
    timeout = refl;
    test_dirs = refl;
    has_dirs = dirs;
    commands = refl;
  }

  pub pre_run-Overridden :
      (files : Files) (suite_of : Object → S) (parse : Bytes → Result Value) (f : Flags)
      (args : List Bytes) (s : S) (vars : Dict Bytes Value)
      → pre_run Config files suite_of parse f args ≡ ok (s, vars)
      → (base : S) × (load_options Config files suite_of
            (config_path f.config (files.stat (codes "kuttl-test.yaml")))
          ≡ ok base)
        × (parse_vars parse f.template_vars ≡ ok vars)
        × Overridden f args base s
  unfolding pre_run
  pre_run-Overridden files suite_of parse f args s vars h =
      elim (Result-cases (
        load_options Config files suite_of
          (config_path f.config (files.stat (codes "kuttl-test.yaml"))))) [
            | inr (e, q) ↦ ground arith
            | inl (base, q) ↦ elim (Result-cases (override Config f args base)) [
              | inr (e, r) ↦ ground arith
              | inl (s', r) ↦ elim (Result-cases (parse_vars parse f.template_vars)) [
                | inr (e, t) ↦ ground arith
                | inl (vars', t) ↦
                    let same_vars : vars' ≡ vars = ground arith in
                    let same : s' ≡ s = ground arith in
                    let (one, attach, g, n, dirs, is_final) = override-ok f args base s' r in
                    (
                      base,
                      q,
                      rw (← same_vars) t,
                      subst (Overridden f args base) (sym is_final ∙ same)
                          (Final-Overridden f args base one attach g n dirs),
                    )
              ]
            ]
          ]
