-- ===== src/VersionSpecs/Listeners.antt =====
-- The listeners of a route, of internal/httpapi/product_spec.go.
pub mod Stored
pub mod Encoded
use Prim.Native.String.{String}
use cloudmeter.Common.{
  ℕ, suc, ◌+◌, Bool, true, false, not, ◌&&◌, ◌||◌, Option, none, some, List, [], ◌∷◌, map, length,
  ltb, ◌==◌, if◌then◌else◌,
}
use cloudmeter.Runtime.Float.{whole}
use cloudmeter.Runtime.Value.{
  Value, Spec, boolean, number, string, object, field, end, get, as_array, as_object, truthy,
  text_of, member,
}
use cloudmeter.Runtime.Resources.{volumes_or_none}
use cloudmeter.Runtime.Patterns.{is_volume_key, char_count}
use cloudmeter.Runtime.Result.{
  Result, ok, fail, ◌>>=◌, ◌>>◌, refuse, need, container_port, listeners_too_many,
  listener_not_object, listener_key, listener_port, listener_remark, listener_mapping,
  listener_primary,
}
use cloudmeter.VersionSpecs.Fields.{integer_between}

pub record RouteListener : Type 0 where
  pub key : String
  pub container_port : ℕ
  pub remark : String
  pub primary : Bool
  pub user_editable : Bool
  pub mapping_available : Bool
  pub mapping_enabled : Bool

abbrev pub encode_listener : RouteListener → Value
encode_listener l = object (
    field "key" (string l.key) (
      field "containerPort" (number (whole l.container_port)) (
        field "remark" (string l.remark) (
          field "primary" (boolean l.primary) (
            field "userEditable" (boolean l.user_editable) (
              field "mappingAvailable" (boolean l.mapping_available)
                (field "mappingEnabled" (boolean l.mapping_enabled) end)))))))

abbrev pub encode_route_listeners : List RouteListener → List Value
encode_route_listeners = map encode_listener

-- `routePortMappingAvailable`.
unfoldable pub route_port_mapping_available : Spec → Bool
route_port_mapping_available spec = elim (as_object (get "portMapping" spec)) [
  | none ↦ false
  | some mapping ↦ truthy (get "available" mapping)
]

abbrev pub met : ℕ → List ℕ → Bool
met n [] = false
met n (m ∷ ms) = m == n || met n ms

-- `listenerPortKeyPattern` is the expression of `volumeKeyPattern`.
unfoldable pub parse_listener : List String → List ℕ → Value → Result RouteListener
unfolding is_volume_key integer_between
parse_listener keys ports v = do
  item ← need (as_object v) listener_not_object
  let key = text_of (get "key" item)
  let available = truthy (get "mappingAvailable" item)
  let enabled = truthy (get "mappingEnabled" item)
  refuse (not (is_volume_key key) || member key keys) listener_key
  port ← need (integer_between 1 65535 (get "containerPort" item)) listener_port
  refuse (met port ports) listener_port
  refuse (ltb 120 (char_count (text_of (get "remark" item)))) listener_remark
  refuse (enabled && not available) listener_mapping
  ok (record {
    key = key;
    container_port = port;
    remark = text_of (get "remark" item);
    primary = truthy (get "primary" item);
    user_editable = truthy (get "userEditable" item);
    mapping_available = available;
    mapping_enabled = enabled;
  })

-- The loop, with the keys and the ports of the listeners before.
unfoldable pub parse_listeners : List String → List ℕ → List Value → Result (List RouteListener)
unfolding parse_listener
parse_listeners keys ports [] = ok []
parse_listeners keys ports (v ∷ vs) = do
  l ← parse_listener keys ports v
  ls ← parse_listeners (l.key ∷ keys) (l.container_port ∷ ports) vs
  ok (l ∷ ls)

abbrev pub primary_count : List RouteListener → ℕ
primary_count [] = 0
primary_count (l ∷ ls) = (if l.primary then 1 else 0) + primary_count ls

-- The one listener of a route that lists none.
abbrev pub web_listener : ℕ → Bool → RouteListener
web_listener port available = record {
  key = "web";
  container_port = port;
  remark = "Web 入口";
  primary = true;
  user_editable = false;
  mapping_available = available;
  mapping_enabled = false;
}

unfoldable pub declared_listeners : Spec → List Value → Result (List RouteListener)
unfolding parse_listeners integer_between route_port_mapping_available
declared_listeners spec [] = do
  port ← need (integer_between 1 65535 (get "containerPort" spec)) container_port
  ok (web_listener port (route_port_mapping_available spec) ∷ [])
declared_listeners spec (v ∷ vs) = do
  refuse (ltb 16 (length (v ∷ vs))) listeners_too_many
  ls ← parse_listeners [] [] (v ∷ vs)
  refuse (not (primary_count ls == 1)) listener_primary
  ok ls

unfoldable pub route_listeners : Spec → Result (List RouteListener)
unfolding declared_listeners
route_listeners spec = declared_listeners spec (volumes_or_none (as_array (get "listeners" spec)))

abbrev pub any_enabled : List RouteListener → Bool
any_enabled [] = false
any_enabled (l ∷ ls) = l.mapping_enabled || any_enabled ls

abbrev pub enabled_result : Result (List RouteListener) → Bool
enabled_result (ok ls) = any_enabled ls
enabled_result (fail e) = false

unfoldable pub route_has_enabled_mapping : Spec → Bool
unfolding route_listeners
route_has_enabled_mapping spec = enabled_result (route_listeners spec)
