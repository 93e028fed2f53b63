-- ===== src/VersionSpecs/Probe.antt =====
-- What the worker reads of a stored route and health specification: `healthPath`, `healthTimeout`,
-- `healthAcceptedStatusCodes`, `healthInterval`, `routePort` and their neighbours in
-- apps/worker/main.go.
pub mod Agrees
pub mod Codes
pub mod Routes
use Prim.Native.Char.{Char, code}
use Prim.Native.String.{String}
use cloudmeter.Common.{
  ℕ, ◌+◌, ◌*◌, ◌/◌, Bool, true, false, not, ◌&&◌, ◌||◌, Option, none, some, List, [], ◌∷◌, map, leb,
  ltb, ◌==◌, if◌then◌else◌,
}
use cloudmeter.Common.Int.{ℤ, negsuc}
use cloudmeter.Common.Text.{all_chars, is_empty, trim_space}
use cloudmeter.Runtime.Float.{is_nan, Float, nan, pos_inf, neg_inf, pos, neg, lt, whole, unit}
use cloudmeter.Runtime.Value.{
  Value, string, array, strings, ints, items, Spec, get, numeric, as_array, as_object, as_string,
  truthy, text_of,
}
use cloudmeter.Runtime.Patterns.{has_prefix}
use cloudmeter.Runtime.Resources.{volumes_or_none}
use cloudmeter.VersionSpecs.Fields.{to_int, exact_integer, between}
use cloudmeter.VersionSpecs.Listeners.{met}
use cloudmeter.VersionSpecs.Normalize.{int_value}

-- A value of Go, written as JSON and read again: a slice comes back as an array of values.
abbrev pub reread : Value → Value
reread (ints ns) = array (items (map int_value ns))
reread (strings ss) = array (items (map string ss))
reread v = v

abbrev pub stored : Spec → Spec
stored [] = []
stored ((k, v) ∷ m) = (k, reread v) ∷ stored m

-- `int(value)`: the fraction is dropped.
abbrev pub truncated : Float → ℤ
truncated (pos n) = to_int false (n / unit)
truncated (neg n) = to_int true (n / unit)
truncated x = negsuc 9223372036854775807

-- The number, or the default where it is missing or out of range.
abbrev pub number_or : ℤ → ℕ → Option Float → ℤ
number_or initial most none = initial
number_or initial most (some x) =
    if lt x (whole 1) || lt (whole most) x then initial else truncated x

unfoldable pub health_timeout : Spec → ℤ
unfolding to_int
health_timeout spec = number_or (ℤ.pos 5) 30 (numeric (get "timeoutSeconds" spec))

-- `healthInterval` of the health specification in a snapshot.
unfoldable pub health_interval : Spec → ℤ
unfolding to_int
health_interval spec = number_or (ℤ.pos 5) 120 (numeric (get "intervalSeconds" spec))

-- `strings.ContainsAny(path, " \r\n\t")`.
abbrev pub has_blank : String → Bool
has_blank s = not (all_chars (λ c. not (c == 32 || c == 13 || c == 10 || c == 9)) s)

unfoldable pub health_path : Spec → Option String
unfolding trim_space has_prefix all_chars
health_path spec =
    let path = trim_space (text_of (get "path" spec)) in
    if is_empty path
    then none
    else if not (has_prefix "/" path) || has_blank path
    then some "/__invalid_health_path__"
    else some path

abbrev pub root_unless : Option String → String
root_unless none = "/"
root_unless (some path) = if is_empty path then "/" else path

unfoldable pub health_path_or_root : Spec → String
health_path_or_root health = root_unless (as_string (get "path" health))

-- The loop over the codes: what is no status code, or was met before, is passed over.
abbrev pub collect : List ℕ → List (Option ℕ) → List ℕ
collect seen [] = []
collect seen (none ∷ codes) = collect seen codes
collect seen (some code ∷ codes) =
    let rest = collect (if met code seen then seen else code ∷ seen) codes in
    if met code seen then rest else code ∷ rest

abbrev pub status_code : Value → Option ℕ
status_code v = between 100 599 (exact_integer v)

-- A code is a number that equals the code it is truncated to, which a whole number alone does.
unfoldable pub health_accepted_status_codes : Spec → List ℕ
unfolding exact_integer
health_accepted_status_codes spec =
    collect [] (map status_code (volumes_or_none (as_array (get "acceptedStatusCodes" spec))))

-- `value.(float64)` between the least and the greatest port.
abbrev pub port_or : ℤ → Option Float → ℤ
port_or other none = other
port_or other (some x) =
    if not (is_nan x || lt x (whole 1) || lt (whole 65535) x) then truncated x else other

unfoldable pub route_port : Spec → ℤ
unfolding to_int
route_port spec =
    port_or (port_or (ℤ.pos 8080) (numeric (get "containerPort" spec))) (numeric (get "port" spec))

abbrev pub enabled_item : Option Spec → Bool
enabled_item none = false
enabled_item (some item) = truthy (get "mappingEnabled" item)

abbrev pub some_enabled : List Value → Bool
some_enabled [] = false
some_enabled (v ∷ vs) = enabled_item (as_object v) || some_enabled vs

unfoldable pub route_spec_has_enabled_mapping : Spec → Bool
route_spec_has_enabled_mapping spec =
    some_enabled (volumes_or_none (as_array (get "listeners" spec)))
