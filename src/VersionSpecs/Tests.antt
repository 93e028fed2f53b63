-- ===== src/VersionSpecs/Tests.antt =====
-- The specifications of a product version at concrete values.
use cloudmeter.Common.{◌≡◌, refl, true, false, some, [], ◌∷◌}
use cloudmeter.Common.Int.{ℤ}
use cloudmeter.Common.Text.{all_chars, byte_len, trim_left, trim_right, trim_space, is_space}
use cloudmeter.Runtime.Float.{whole, unit}
use cloudmeter.Runtime.Value.{boolean, number, string, array, ints, object, items, fields, Spec}
use cloudmeter.Runtime.Patterns.{is_volume_key, has_prefix, contains}
use cloudmeter.Runtime.Result.{
  ok, fail, listener_primary, path_invalid, policy_unknown, stateless_volumes,
}
use cloudmeter.VersionSpecs.Fields.{
  to_int, exact_integer, integer_between, absolute_path, normalized_absolute_path,
  normalized_boolean,
}
use cloudmeter.VersionSpecs.Listeners.{
  RouteListener, encode_route_listeners, parse_listener, parse_listeners, declared_listeners,
  route_listeners, route_has_enabled_mapping,
}
use cloudmeter.VersionSpecs.Listeners.Stored.{AreListeners}
use cloudmeter.VersionSpecs.Normalize.{
  normalize_mapping, with_listeners, with_base_path, normalize_route_spec, status_codes,
  normalized_accepted_status_codes, normalize_health_number, normalize_health_spec,
  normalize_update_spec, normalize_product_version_specs, snapshot_data_policy,
}
use cloudmeter.VersionSpecs.Normalize.Stored.{normalize_route_spec-listeners}
use cloudmeter.VersionSpecs.Probe.{
  stored, health_timeout, health_interval, health_path, health_path_or_root,
  health_accepted_status_codes, route_port, route_spec_has_enabled_mapping,
}
use cloudmeter.VersionSpecs.Probe.Agrees.{AgreesOnHealth, normalize_health_spec-AgreesOnHealth}
use cloudmeter.VersionSpecs.Probe.Routes.{AgreesOnRoute, normalize_route_spec-AgreesOnRoute}

abbrev web : RouteListener
web = record {
  key = "web";
  container_port = 8080;
  remark = "Web";
  primary = true;
  user_editable = false;
  mapping_available = true;
  mapping_enabled = true;
}

abbrev admin : RouteListener
admin = record {
  key = "admin";
  container_port = 9000;
  remark = "";
  primary = false;
  user_editable = true;
  mapping_available = false;
  mapping_enabled = false;
}

abbrev route : Spec
route =
    ("listeners", array (items (encode_route_listeners (web ∷ admin ∷ []))))
    ∷ ("basePath", string " /app/ ")
    ∷ ("stripPrefix", boolean true)
    ∷ []

abbrev stored_route : Spec
stored_route =
    ("listeners", array (items (encode_route_listeners (web ∷ admin ∷ []))))
    ∷ ("basePath", string "/app")
    ∷ ("containerPort", number (whole 8080))
    ∷ ("websocket", boolean true)
    ∷ ("sse", boolean true)
    ∷ []

lists : route_listeners route ≡ ok (web ∷ admin ∷ [])
unfolding route_listeners declared_listeners parse_listeners parse_listener is_volume_key
    integer_between exact_integer to_int unit all_chars
lists = refl

normalizes : normalize_route_spec route ≡ ok stored_route
unfolding normalize_route_spec with_listeners with_base_path normalized_absolute_path absolute_path
    normalized_boolean normalize_mapping route_listeners declared_listeners parse_listeners
    parse_listener is_volume_key integer_between exact_integer to_int unit all_chars byte_len
    trim_space trim_left trim_right is_space has_prefix contains
normalizes = refl

two_primaries :
    route_listeners (
      (
        "listeners",
        array (items (encode_route_listeners (web ∷ record admin { primary = true } ∷ []))),
      )
      ∷ [])
    ≡ fail listener_primary
unfolding route_listeners declared_listeners parse_listeners parse_listener is_volume_key
    integer_between exact_integer to_int unit all_chars
two_primaries = refl

-- A path of slashes alone is trimmed to the empty text.
paths :
    (normalized_absolute_path (string "/a/") false ≡ ok "/a")
    × (normalized_absolute_path (string "//") true ≡ ok "")
    × (normalized_absolute_path (string "/a/../b") true ≡ fail path_invalid)
unfolding normalized_absolute_path absolute_path all_chars byte_len trim_space trim_left trim_right
    is_space has_prefix contains
paths = (refl, refl, refl)

abbrev health : Spec
health =
    ("path", string "/health")
    ∷ ("timeoutSeconds", number (whole 10))
    ∷ (
      "acceptedStatusCodes",
      array (items (number (whole 200) ∷ number (whole 204) ∷ number (whole 200) ∷ [])),
    )
    ∷ []

abbrev stored_health : Spec
stored_health =
    ("path", string "/health")
    ∷ ("timeoutSeconds", number (whole 10))
    ∷ ("acceptedStatusCodes", ints (ℤ.pos 200 ∷ ℤ.pos 204 ∷ []))
    ∷ ("intervalSeconds", number (whole 5))
    ∷ []

normalizes_health : normalize_health_spec health ≡ ok stored_health
unfolding normalize_health_spec normalized_absolute_path absolute_path
    normalized_accepted_status_codes status_codes normalize_health_number integer_between
    exact_integer to_int unit all_chars byte_len trim_space trim_left trim_right is_space has_prefix
    contains
normalizes_health = refl

probes :
    (health_path (stored stored_health) ≡ some "/health")
    × (health_path_or_root (stored stored_health) ≡ "/health")
    × (health_timeout (stored stored_health) ≡ ℤ.pos 10)
    × (health_interval (stored stored_health) ≡ ℤ.pos 5)
    × (health_accepted_status_codes (stored stored_health) ≡ 200 ∷ 204 ∷ [])
    × (route_port (stored stored_route) ≡ ℤ.pos 8080)
    × (route_spec_has_enabled_mapping (stored stored_route) ≡ true)
    × (route_has_enabled_mapping stored_route ≡ true)
unfolding health_path health_path_or_root health_timeout health_interval
    health_accepted_status_codes route_port route_spec_has_enabled_mapping route_has_enabled_mapping
    route_listeners declared_listeners parse_listeners parse_listener is_volume_key integer_between
    exact_integer to_int unit all_chars trim_space trim_left trim_right is_space has_prefix
probes = (refl, refl, refl, refl, refl, refl, refl, refl)

policies :
    (normalize_update_spec (("dataPolicy", string "keep") ∷ []) ≡ fail policy_unknown)
    × (snapshot_data_policy
          (("update_spec", object (fields (("dataPolicy", string "stateless") ∷ []))) ∷ [])
        ≡ "stateless")
unfolding normalize_update_spec trim_space trim_left trim_right is_space snapshot_data_policy
policies = (refl, refl)

refuses_stateless_volumes :
    normalize_product_version_specs
      (("volumes", array (items (number (whole 1) ∷ []))) ∷ [])
      route
      health
      (("dataPolicy", string "stateless") ∷ [])
    ≡ fail stateless_volumes
unfolding normalize_product_version_specs normalize_update_spec normalize_route_spec with_listeners
    with_base_path normalized_absolute_path absolute_path normalized_boolean normalize_mapping
    route_listeners declared_listeners parse_listeners parse_listener is_volume_key integer_between
    exact_integer to_int unit all_chars byte_len trim_space trim_left trim_right is_space has_prefix
    contains normalize_health_spec normalized_accepted_status_codes status_codes
    normalize_health_number
refuses_stateless_volumes = refl

normalize_route_spec-listeners_example :
    AreListeners (web ∷ admin ∷ []) × (route_listeners stored_route ≡ ok (web ∷ admin ∷ []))
normalize_route_spec-listeners_example =
    normalize_route_spec-listeners route stored_route (web ∷ admin ∷ []) normalizes lists

normalize_route_spec-AgreesOnRoute_example : AgreesOnRoute route stored_route (web ∷ admin ∷ [])
normalize_route_spec-AgreesOnRoute_example =
    normalize_route_spec-AgreesOnRoute route stored_route (web ∷ admin ∷ []) normalizes lists

normalize_health_spec-AgreesOnHealth_example : AgreesOnHealth health stored_health
normalize_health_spec-AgreesOnHealth_example =
    normalize_health_spec-AgreesOnHealth health stored_health normalizes_health
