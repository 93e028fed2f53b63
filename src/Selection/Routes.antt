-- ===== src/Selection/Routes.antt =====
-- `selectedRouteSpec` of internal/httpapi/server.go. Its copy of the template, through JSON, is the
-- template: a template is decoded JSON.
pub mod Sound
use Prim.Native.String.{String}
use cloudmeter.Common.{
  ℕ, Bool, true, false, not, ◌&&◌, ◌||◌, Option, none, some, List, [], ◌∷◌, map, leb, ◌==◌,
  if◌then◌else◌,
}
use cloudmeter.Common.Int.{ℤ, negsuc}
use cloudmeter.Runtime.Float.{whole}
use cloudmeter.Runtime.Value.{Value, number, array, items, Spec, find, get, set, remove}
use cloudmeter.Runtime.Resources.{is_missing}
use cloudmeter.Runtime.Result.{
  Result, ok, fail, ◌>>=◌, ◌>>◌, refuse, need, port_duplicated, port_fixed, port_out_of_range,
  mapping_unavailable, port_unknown,
}
use cloudmeter.VersionSpecs.Listeners.{RouteListener, encode_route_listeners, route_listeners}
use cloudmeter.VersionSpecs.Normalize.{normalize_route_spec}
use cloudmeter.Selection.Steps.{is_none}

pub record SelectedListenerPort : Type 0 where
  pub key : String
  pub container_port : ℤ
  pub mapping_enabled : Bool

-- The ports of a request and its one old flag.
pub record SelectedPorts : Type 0 where
  pub listener_ports : List SelectedListenerPort
  pub port_mapping_enabled : Option Bool

abbrev pub Requested : Type 0
Requested = List (String × SelectedListenerPort)

unfoldable pub requested_ports : Requested → List SelectedListenerPort → Result Requested
requested_ports requested [] = ok requested
requested_ports requested (p ∷ ps) = do
  refuse (not (is_missing (find p.key requested))) port_duplicated
  requested_ports (set p.key p requested) ps

-- The flag chooses the mapping of the primary listener, where that is available.
abbrev pub flag_choice : Option Bool → RouteListener → Option SelectedListenerPort
flag_choice none l = none
flag_choice (some enabled) l =
    if l.primary && l.mapping_available
    then some
        (record { key = l.key; container_port = ℤ.pos l.container_port; mapping_enabled = enabled })
    else none

abbrev pub first_choice :
    Option SelectedListenerPort → Option SelectedListenerPort → Option SelectedListenerPort
first_choice none other = other
first_choice (some p) other = some p

abbrev pub is_port : ℤ → ℕ → Bool
is_port (ℤ.pos n) m = n == m
is_port (negsuc n) m = false

-- A port from 1 to 65535.
abbrev pub valid_port : ℤ → Option ℕ
valid_port (ℤ.pos n) = if leb 1 n && leb n 65535 then some n else none
valid_port (negsuc n) = none

unfoldable pub apply_choice : Option SelectedListenerPort → RouteListener → Result RouteListener
apply_choice none l = ok l
apply_choice (some p) l = do
  refuse (not (is_port p.container_port l.container_port) && not l.user_editable) port_fixed
  port ← need (valid_port p.container_port) port_out_of_range
  refuse (p.mapping_enabled && not l.mapping_available) mapping_unavailable
  ok (record l { container_port = port; mapping_enabled = p.mapping_enabled })

-- The loop over the listeners; a choice that is used is taken out of the requested ones.
unfoldable pub choose_listeners :
    Option Bool → Requested → List RouteListener → Result (List RouteListener × Requested)
unfolding apply_choice
choose_listeners enabled requested [] = ok ([], requested)
choose_listeners enabled requested (l ∷ ls) =
    let choice = first_choice (find l.key requested) (flag_choice enabled l) in
    do
      chosen ← apply_choice choice l
      rest ←
          choose_listeners enabled (if is_missing choice then requested else remove l.key requested)
            ls
      ok (chosen ∷ rest.0, rest.1)

-- The port of the first primary listener, if there is one.
abbrev pub with_primary : List RouteListener → Spec → Spec
with_primary [] spec = spec
with_primary (l ∷ ls) spec =
    let rest = with_primary ls spec in
    if l.primary then set "containerPort" (number (whole l.container_port)) spec else rest

unfoldable pub selected_route_spec : Spec → SelectedPorts → Result Spec
unfolding normalize_route_spec route_listeners requested_ports choose_listeners
selected_route_spec template selected = do
  normalized ← normalize_route_spec template
  listeners ← route_listeners normalized
  requested ← requested_ports [] selected.listener_ports
  chosen ← choose_listeners selected.port_mapping_enabled requested listeners
  refuse (not (is_none chosen.1)) port_unknown
  let result = set "listeners" (array (items (encode_route_listeners chosen.0))) normalized
  _ ← route_listeners result
  ok (with_primary chosen.0 result)
