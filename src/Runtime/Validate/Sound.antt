-- ===== src/Runtime/Validate/Sound.antt =====
-- What `ValidateRuntimeSpec` of internal/runtime/spec.go guarantees of a specification that it accepts.
use Prim.Native.String.{String}
use mathlib.Core.Path.{subst}
use cloudmeter.Common.{
  ℕ, ◌*◌, ◌≡◌, ◌≢◌, sym, ◌∙◌, inl, inr, Bool, true, false, ◌||◌, none, List, [], ◌∷◌, All, ◌==◌,
  arith, Option-cases,
}
use cloudmeter.Runtime.Float.{unit}
use cloudmeter.Runtime.Value.{boolean, string, Spec, find, get, numeric, as_array, as_object}
use cloudmeter.Runtime.Patterns.{fits_classes, equal_fold}
use cloudmeter.Runtime.Result.{ok, bind-eq-ok, ok-injective}
use cloudmeter.Runtime.Resources.{tenth, runtime_resources, runtime_storage, volumes_or_none}
use cloudmeter.Runtime.Volumes.{volume_mounts, validate_volumes}
use cloudmeter.Runtime.Volumes.Sound.{AreMounts, volume_mounts-AreMounts}
use cloudmeter.Runtime.Secrets.{SecretOption, runtime_secret_keys, runtime_secret_options}
use cloudmeter.Runtime.Secrets.Options.{AreOptions, keys_of, runtime_secret_options-AreOptions}
use cloudmeter.Runtime.Dependencies.{Dependency, runtime_dependencies}
use cloudmeter.Runtime.Dependencies.Exact.{Declares, runtime_dependencies_iff}
use cloudmeter.Runtime.Settings.{environment, validate_options, runtime_command}
use cloudmeter.Runtime.Validate.Bounds.{
  Declared, declared_size, runtime_resources-Declared, runtime_storage-Declared,
}
use cloudmeter.Runtime.Validate.{
  is_host, validate_isolation, some_in, validate_environment_settings, validate_secrets,
  validate_runtime_spec,
}

abbrev either : ℕ → ℕ → ℕ → Bool
either a b c = c == a || c == b

-- The letters of "host", each small or capital.
abbrev pub host_letters : List (ℕ → Bool)
host_letters = either b'h' b'H' ∷ either b'o' b'O' ∷ either b's' b'S' ∷ either b't' b'T' ∷ []

-- No access to the host.
pub record IsIsolated (spec : Spec) : Type 0 where
  pub unprivileged : get "privileged" spec ≢ boolean true
  pub own_network : get "hostNetwork" spec ≢ boolean true
  pub no_socket : get "dockerSocket" spec ≢ boolean true
  pub network_mode :
      (s : String) → get "networkMode" spec ≡ string s → fits_classes host_letters s ≡ false

-- From 0.1 to 64 cores, from 64 to 262144 MiB, and for each volume from 1 to 16384 GiB.
pub record IsBounded (spec : Spec) : Type 0 where
  pub cpu : Declared (numeric (get "cpuCores" spec)) tenth (64 * unit)
  pub memory : Declared (numeric (get "memoryMiB" spec)) (64 * unit) (262144 * unit)
  pub sizes :
      All
        (λ v. Declared (declared_size (as_object v)) (1 * unit) (16384 * unit))
        (volumes_or_none (as_array (get "volumes" spec)))

-- The secrets are parsed, and no secret is a variable of the environment too.
pub record HasSecrets (spec : Spec) (os : List SecretOption) : Type 0 where
  pub parsed : runtime_secret_options spec ≡ ok os
  pub options : AreOptions spec os
  pub apart : All (λ k. find k (environment spec) ≡ none) (keys_of os)

pub record IsSafe (spec : Spec) : Type 0 where
  pub isolated : IsIsolated spec
  pub bounded : IsBounded spec
  pub mounts : AreMounts (volumes_or_none (as_array (get "volumes" spec))) (volume_mounts spec)
  pub secrets : (os : List SecretOption) × HasSecrets spec os
  pub dependencies : (ds : List Dependency) × Declares (find "dependencies" spec) ds

host_letters-equal_fold :
    (s : String) → fits_classes host_letters s ≡ true → equal_fold s "host" ≡ true
unfolding equal_fold
host_letters-equal_fold String.[] h = cc
host_letters-equal_fold (String.◌∷◌ a String.[]) h = ground arith
host_letters-equal_fold (String.◌∷◌ a (String.◌∷◌ b String.[])) h = ground arith
host_letters-equal_fold (String.◌∷◌ a (String.◌∷◌ b (String.◌∷◌ c String.[]))) h = ground arith
host_letters-equal_fold (String.◌∷◌ a (String.◌∷◌ b (String.◌∷◌ c (String.◌∷◌ d String.[])))) h =
    ground arith
host_letters-equal_fold (String.◌∷◌ a (String.◌∷◌ b (String.◌∷◌ c (String.◌∷◌ d (String.◌∷◌ e s)))))
      h =
    ground arith

validate_isolation-IsIsolated : (spec : Spec) → validate_isolation spec ≡ ok tt → IsIsolated spec
unfolding validate_isolation is_host
validate_isolation-IsIsolated spec h = record {
  unprivileged = ground arith;
  own_network = ground arith;
  no_socket = ground arith;
  network_mode = λ s e. ground (arith, host_letters-equal_fold s);
}

some_in-absent :
    (variables : Spec) (ks : List String)
    → some_in variables ks ≡ false
    → All (λ k. find k variables ≡ none) ks
some_in-absent variables [] h = tt
some_in-absent variables (k ∷ ks) h = elim (Option-cases (find k variables)) [
  | inl e ↦ (e, some_in-absent variables ks (ground arith))
  | inr (v, e) ↦ ground arith
]

validate_secrets-HasSecrets :
    (spec : Spec) → validate_secrets spec ≡ ok tt → (os : List SecretOption) × HasSecrets spec os
unfolding validate_secrets
validate_secrets-HasSecrets spec h =
    let (keys, e, h1) = bind-eq-ok (runtime_secret_keys spec) _ h in
    let (os, r, h2) = bind-eq-ok (runtime_secret_options spec) _ h1 in
    let conflict : some_in (environment spec) keys ≡ false = ground arith in
    let options = runtime_secret_options-AreOptions spec os r in
    let same = ok-injective keys (keys_of os) (sym e ∙ options.declared) in
    (
      os,
      record {
        parsed = r;
        options = options;
        apart =
            subst (All (λ k. find k (environment spec) ≡ none)) same
              (some_in-absent (environment spec) keys conflict);
      },
    )

-- A specification that `ValidateRuntimeSpec` accepts is safe to run: it asks for no privilege, no host
-- network under any spelling and no Docker socket; it declares cores, memory and the size of every
-- volume within their bounds; `VolumeMounts` mounts each volume once under valid, distinct names and
-- distinct paths below the root; its secrets parse to distinct valid keys and none of them is a
-- variable of the environment; and its dependencies are well formed.
pub validate_runtime_spec-IsSafe : (spec : Spec) → validate_runtime_spec spec ≡ ok tt → IsSafe spec
unfolding validate_runtime_spec
validate_runtime_spec-IsSafe spec h =
    let (r, e, h1) = bind-eq-ok (runtime_resources spec true) _ h in
    let (cpu, memory) = runtime_resources-Declared spec r e in
    let (_, i, h2) = bind-eq-ok (validate_isolation spec) _ h1 in
    let (st, s, h3) = bind-eq-ok (runtime_storage spec true) _ h2 in
    let (_, _, h4) = bind-eq-ok (validate_options (find "editableOptions" spec)) _ h3 in
    let (_, _, h5) = bind-eq-ok (runtime_command spec) _ h4 in
    let (_, _, h6) = bind-eq-ok (validate_environment_settings spec) _ h5 in
    let (_, q, h7) = bind-eq-ok (validate_secrets spec) _ h6 in
    let (_, v, h8) = bind-eq-ok (validate_volumes (find "volumes" spec)) _ h7 in
    let (ds, d, _) = bind-eq-ok (runtime_dependencies spec) _ h8 in
    record {
      isolated = validate_isolation-IsIsolated spec i;
      bounded = record { cpu = cpu; memory = memory; sizes = runtime_storage-Declared spec st s };
      mounts = volume_mounts-AreMounts spec v;
      secrets = validate_secrets-HasSecrets spec q;
      dependencies = (ds, (runtime_dependencies_iff spec ds).0 d);
    }
