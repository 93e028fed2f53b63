-- ===== src/VersionSpecs/Normalize.antt =====
-- The normalization of the specifications of a product version, of
-- internal/httpapi/product_spec.go. A map that the source changes in place is returned changed; where a
-- check fails its callers drop the maps.
pub mod Stored
use Prim.Native.String.{String}
use text.Mathlib.Text.{◌==◌ as same}
use cloudmeter.Common.{
  ℕ, ◌+◌, ◌*◌, Bool, true, false, not, ◌&&◌, ◌||◌, Option, none, some, List, [], ◌∷◌, map, length,
  ltb, ◌==◌, if◌then◌else◌,
}
use cloudmeter.Common.Int.{ℤ, negsuc}
use cloudmeter.Common.Text.{is_empty, trim_space}
use cloudmeter.Runtime.Float.{Float, whole, neg, unit}
use cloudmeter.Runtime.Value.{
  Value, null, number, string, array, ints, object, Spec, Items, items, elements, fields, find, get,
  set, remove, boolean, as_array, as_object, as_string,
}
use cloudmeter.Runtime.Resources.{volumes_or_none}
use cloudmeter.Runtime.Result.{
  Result, ok, fail, ◌>>=◌, ◌>>◌, refuse, need, codes_not_array, codes_too_many, code_out_of_range,
  health_number, policy_not_string, policy_unknown, stateless_volumes,
}
use cloudmeter.VersionSpecs.Fields.{normalized_absolute_path, normalized_boolean, integer_between}
use cloudmeter.VersionSpecs.Listeners.{RouteListener, encode_route_listeners, route_listeners, met}

-- The port of the last primary listener, 0 where there is none.
abbrev pub primary_port : ℕ → List RouteListener → ℕ
primary_port port [] = port
primary_port port (l ∷ ls) = primary_port (if l.primary then l.container_port else port) ls

-- The port mapping keeps its one field.
unfoldable pub normalize_mapping : Spec → Result Spec
unfolding normalized_boolean
normalize_mapping spec = elim (as_object (get "portMapping" spec)) [
  | none ↦ ok (remove "portMapping" spec)
  | some mapping ↦ do
    available ← normalized_boolean mapping "available" false
    ok (set "portMapping" (object (fields (("available", boolean available.0) ∷ []))) spec)
]

unfoldable pub with_listeners : List RouteListener → Spec → Spec
with_listeners ls spec = remove "portEnvVar" (
    remove "portEditable" (
      set "listeners" (array (items (encode_route_listeners ls)))
        (set "containerPort" (number (whole (primary_port 0 ls))) spec)))

unfoldable pub with_base_path : Spec → Result Spec
unfolding normalized_absolute_path
with_base_path spec = do
  path ← normalized_absolute_path (get "basePath" spec) false
  ok (remove "stripPrefix" (set "basePath" (string (if is_empty path then "/" else path)) spec))

unfoldable pub normalize_route_spec : Spec → Result Spec
unfolding route_listeners with_listeners with_base_path normalized_boolean normalize_mapping
normalize_route_spec spec = do
  ls ← route_listeners spec
  pathed ← with_base_path (with_listeners ls spec)
  socketed ← normalized_boolean pathed "websocket" true
  streamed ← normalized_boolean socketed.1 "sse" true
  normalize_mapping (remove "cookiePath" streamed.1)

-- `float64(value)` of an int.
abbrev pub from_int : ℤ → Float
from_int (ℤ.pos n) = whole n
from_int (negsuc n) = neg ((n + 1) * unit)

abbrev pub int_value : ℤ → Value
int_value z = number (from_int z)

abbrev pub code_values : Value → Option (List Value)
code_values (array vs) = some (elements vs)
code_values (ints ns) = some (map int_value ns)
code_values v = none

-- The loop over the codes: a code that was met before is passed over.
unfoldable pub status_codes : List ℕ → List Value → Result (List ℕ)
unfolding integer_between
status_codes seen [] = ok []
status_codes seen (v ∷ vs) = do
  code ← need (integer_between 100 599 v) code_out_of_range
  rest ← status_codes (if met code seen then seen else code ∷ seen) vs
  ok (if met code seen then rest else code ∷ rest)

unfoldable pub normalized_accepted_status_codes : Value → Result (List ℕ)
unfolding status_codes
normalized_accepted_status_codes null = ok []
normalized_accepted_status_codes raw = do
  values ← need (code_values raw) codes_not_array
  refuse (ltb 32 (length values)) codes_too_many
  status_codes [] values

-- A number of a health check: the default where the field is missing.
abbrev pub health_number_of : Option Value → ℕ → ℕ → Result ℕ
health_number_of none initial most = ok initial
health_number_of (some raw) initial most = need (integer_between 1 most raw) health_number

-- One round of the loop over the two numbers, which have the minimum 1.
unfoldable pub normalize_health_number : String → ℕ → ℕ → Spec → Result Spec
unfolding integer_between
normalize_health_number key initial most spec = do
  value ← health_number_of (find key spec) initial most
  ok (set key (number (whole value)) spec)

unfoldable pub normalize_health_spec : Spec → Result Spec
unfolding normalized_absolute_path normalized_accepted_status_codes normalize_health_number
normalize_health_spec spec = do
  path ← normalized_absolute_path (get "path" spec) true
  codes ← normalized_accepted_status_codes (get "acceptedStatusCodes" spec)
  timed ←
      normalize_health_number "intervalSeconds" 5 120
        (set "acceptedStatusCodes" (ints (map ℤ.pos codes)) (set "path" (string path) spec))
  normalize_health_number "timeoutSeconds" 5 30 timed

pub data DataPolicy : Type 0 where
  stateless volume_compatible backup_required : DataPolicy

abbrev pub policy_text : DataPolicy → String
policy_text DataPolicy.stateless = "stateless"
policy_text DataPolicy.volume_compatible = "volume_compatible"
policy_text DataPolicy.backup_required = "backup_required"

abbrev pub policy_of : String → Option DataPolicy
policy_of s =
    if same s "stateless"
    then some DataPolicy.stateless
    else if same s "volume_compatible"
    then some DataPolicy.volume_compatible
    else if same s "backup_required"
    then some DataPolicy.backup_required
    else none

abbrev policy_field : Option Value → Result String
policy_field none = ok "volume_compatible"
policy_field (some raw) = do value ← need (as_string raw) policy_not_string; ok (trim_space value)

-- The policy, and the specification with the policy stored.
unfoldable pub normalize_update_spec : Spec → Result (DataPolicy × Spec)
unfolding trim_space
normalize_update_spec spec = do
  value ← policy_field (find "dataPolicy" spec)
  policy ← need (policy_of value) policy_unknown
  ok (policy, set "dataPolicy" (string (policy_text policy)) spec)

abbrev pub is_stateless : DataPolicy → Bool
is_stateless DataPolicy.stateless = true
is_stateless policy = false

abbrev pub has_some {ℓ} : {A : Type ℓ} → List A → Bool
has_some [] = false
has_some (_ ∷ _) = true

-- The route, health and update specifications that are stored; the runtime specification is only read.
unfoldable pub normalize_product_version_specs :
    Spec → Spec → Spec → Spec → Result (Spec × Spec × Spec)
unfolding normalize_route_spec normalize_health_spec normalize_update_spec
normalize_product_version_specs runtime route health update = do
  route' ← normalize_route_spec route
  health' ← normalize_health_spec health
  update' ← normalize_update_spec update
  refuse (is_stateless update'.0 && has_some (volumes_or_none (as_array (get "volumes" runtime))))
      stateless_volumes
  ok (route', health', update'.1)

-- `snapshotDataPolicy`: the text that is stored, or the default.
unfoldable pub snapshot_data_policy : Spec → String
snapshot_data_policy snapshot = elim (as_object (get "update_spec" snapshot)) [
  | none ↦ "volume_compatible"
  | some update ↦ elim (as_string (get "dataPolicy" update)) [
    | none ↦ "volume_compatible"
    | some policy ↦ policy
  ]
]
