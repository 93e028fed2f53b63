-- ===== src/Runtime/Validate.antt =====
-- `ValidateRuntimeSpec` of internal/runtime/spec.go: the checks in their order.
pub mod Bounds
pub mod Sound
use Prim.Native.String.{String}
use cloudmeter.Common.{Bool, true, false, not, Option, none, some, List, [], ◌∷◌, ◌&&◌, ◌||◌}
use cloudmeter.Runtime.Value.{Value, Spec, find, get, as_object, as_string, truthy}
use cloudmeter.Runtime.Patterns.{equal_fold}
use cloudmeter.Runtime.Resources.{
  Resources, StorageResources, is_missing, runtime_resources, runtime_storage,
}
use cloudmeter.Runtime.Secrets.{SecretOption, runtime_secret_keys, runtime_secret_options}
use cloudmeter.Runtime.Dependencies.{Dependency, runtime_dependencies}
use cloudmeter.Runtime.Volumes.{validate_volumes}
use cloudmeter.Runtime.Settings.{
  validate_options, runtime_command, validate_environment, environment, validate_environment_keys,
  validate_environment_texts,
}
use cloudmeter.Runtime.Result.{
  Result, ok, fail, ◌>>=◌, ◌>>◌, refuse, is_privileged, host_network, docker_socket, secret_in_env,
}

-- `strings.EqualFold(value, "host")`, for a text.
unfoldable pub is_host : Option String → Bool
unfolding equal_fold
is_host none = false
is_host (some s) = equal_fold s "host"

-- The access to the host that a container may not have.
unfoldable pub validate_isolation : Spec → Result (Unit {0})
unfolding is_host
validate_isolation spec = do
  refuse (truthy (get "privileged" spec)) is_privileged
  refuse (is_host (as_string (get "networkMode" spec))) host_network
  refuse (truthy (get "hostNetwork" spec)) host_network
  refuse (truthy (get "dockerSocket" spec)) docker_socket

abbrev pub some_in : Spec → List String → Bool
some_in variables [] = false
some_in variables (key ∷ keys) = not (is_missing (find key variables)) || some_in variables keys

unfoldable pub validate_environment_settings : Spec → Result (Unit {0})
unfolding validate_environment validate_environment_keys validate_environment_texts
validate_environment_settings spec = do
  validate_environment (find "env" spec)
  validate_environment_keys (environment spec) (find "editableEnvKeys" spec)
  validate_environment_texts (find "envDescriptions" spec)

unfoldable pub validate_secrets : Spec → Result (Unit {0})
unfolding runtime_secret_keys runtime_secret_options
validate_secrets spec = do
  keys ← runtime_secret_keys spec
  _ ← runtime_secret_options spec
  refuse (some_in (environment spec) keys) secret_in_env

unfoldable pub validate_runtime_spec : Spec → Result (Unit {0})
unfolding runtime_resources validate_isolation runtime_storage validate_options runtime_command
    validate_environment_settings validate_secrets validate_volumes runtime_dependencies
validate_runtime_spec spec = do
  _ ← runtime_resources spec true
  validate_isolation spec
  _ ← runtime_storage spec true
  validate_options (find "editableOptions" spec)
  _ ← runtime_command spec
  validate_environment_settings spec
  validate_secrets spec
  validate_volumes (find "volumes" spec)
  _ ← runtime_dependencies spec
  ok tt
