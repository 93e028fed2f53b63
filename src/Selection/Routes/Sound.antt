-- ===== src/Selection/Routes/Sound.antt =====
-- A route that `selectedRouteSpec` of internal/httpapi/server.go makes of a template and a request.
use mathlib.Core.Path.{subst}
use cloudmeter.Common.{
  ◌≤◌, ◌≢◌, All, ◌≡◌, refl, sym, ap, ◌∙◌, ◌⊎◌, inl, inr, Bool, true, false, not, ◌&&◌, Option, none,
  some, List, [], ◌∷◌, arith, Bool-cases, if◌then◌else◌,
}
use cloudmeter.Runtime.Float.{whole}
use cloudmeter.Runtime.Value.{
  Value, number, array, items, elements-items, Spec, find, or_null, as_array, set, remove,
  find-set_ne, find-set_self,
}
use cloudmeter.Runtime.Resources.{is_missing, volumes_or_none}
use cloudmeter.Runtime.Result.{
  ok, need, bind-eq-ok, refuse-eq-ok, ok-injective, port_unknown, port_fixed, port_out_of_range,
  mapping_unavailable,
}
use cloudmeter.VersionSpecs.Listeners.{
  RouteListener, encode_route_listeners, declared_listeners, route_listeners, primary_count,
}
use cloudmeter.VersionSpecs.Listeners.Stored.{
  IsListener, AreListeners, AreStored, route_listeners-AreStored,
}
use cloudmeter.VersionSpecs.Listeners.Encoded.{PortsFit, declared_listeners-encoded}
use cloudmeter.VersionSpecs.Normalize.{normalize_route_spec}
use cloudmeter.VersionSpecs.Normalize.Stored.{
  normalize_route_spec-listeners, normalize_route_spec-parsed, route_listeners-items,
}
use cloudmeter.Selection.Steps.{is_none}
use cloudmeter.Selection.Routes.{
  SelectedPorts, SelectedListenerPort, Requested, requested_ports, flag_choice, first_choice,
  is_port, valid_port, apply_choice, choose_listeners, with_primary, selected_route_spec,
}

-- A listener after the choice of a user: its key, remark and marks are the template's, its port too
-- unless it is editable, and a mapping is enabled only where it is available.
pub record Follows (l chosen : RouteListener) : Type 0 where
  pub key : chosen.key ≡ l.key
  pub remark : chosen.remark ≡ l.remark
  pub primary : chosen.primary ≡ l.primary
  pub user_editable : chosen.user_editable ≡ l.user_editable
  pub mapping_available : chosen.mapping_available ≡ l.mapping_available
  pub port : (chosen.container_port ≡ l.container_port) ⊎ (l.user_editable ≡ true)
  pub mapping :
      (chosen.mapping_enabled ≡ l.mapping_enabled)
      ⊎ ((chosen.mapping_enabled ≡ false) ⊎ (l.mapping_available ≡ true))

abbrev pub FollowsAll : List RouteListener → List RouteListener → Type 0
FollowsAll [] [] = Unit
FollowsAll [] (c ∷ cs) = ⊥
FollowsAll (l ∷ ls) [] = ⊥
FollowsAll (l ∷ ls) (c ∷ cs) = Follows l c × FollowsAll ls cs

-- The listeners that are stored, and what they are made of.
pub record HonoursRoute (template out : Spec) : Type 0 where
  pub before : List RouteListener
  pub after : List RouteListener
  pub template_listeners : route_listeners template ≡ ok before
  pub out_listeners : route_listeners out ≡ ok after
  pub well_formed : AreListeners after
  pub follows : FollowsAll before after

apply_choice-Follows :
    (choice : Option SelectedListenerPort) (l c : RouteListener)
    → apply_choice choice l ≡ ok c
    → Follows l c
unfolding apply_choice
apply_choice-Follows none l c h = subst (Follows l) (ok-injective l c h) (record {
  key = refl;
  remark = refl;
  primary = refl;
  user_editable = refl;
  mapping_available = refl;
  port = inl refl;
  mapping = inl refl;
})
apply_choice-Follows (some p) l c h =
    let (fixed, h1) =
      refuse-eq-ok (not (is_port p.container_port l.container_port) && not l.user_editable)
        port_fixed _ h in
    let (port, e, h2) = bind-eq-ok (need (valid_port p.container_port) port_out_of_range) _ h1 in
    let (allowed, h3) =
      refuse-eq-ok (p.mapping_enabled && not l.mapping_available) mapping_unavailable _ h2 in
    let chosen : RouteListener = record l {
      container_port = port;
      mapping_enabled = p.mapping_enabled;
    } in
    subst (Follows l) (ok-injective chosen c h3) (record {
      key = refl;
      remark = refl;
      primary = refl;
      user_editable = refl;
      mapping_available = refl;
      port = ground arith;
      mapping = ground arith;
    })

choose_listeners-FollowsAll :
    (enabled : Option Bool) (requested : Requested) (ls : List RouteListener)
    (out : List RouteListener × Requested)
    → choose_listeners enabled requested ls ≡ ok out
    → FollowsAll ls out.0
unfolding choose_listeners
choose_listeners-FollowsAll enabled requested [] out h =
    subst (λ (o : List RouteListener × Requested). FollowsAll [] o.0)
      (ok-injective ([], requested) out h) tt
choose_listeners-FollowsAll enabled requested (l ∷ ls) out h =
    let choice = first_choice (find l.key requested) (flag_choice enabled l) in
    let left : Requested = if is_missing choice then requested else remove l.key requested in
    let (c, e, h1) = bind-eq-ok (apply_choice choice l) _ h in
    let (rest, r, h2) = bind-eq-ok (choose_listeners enabled left ls) _ h1 in
    subst (λ (o : List RouteListener × Requested). FollowsAll (l ∷ ls) o.0)
      (ok-injective (c ∷ rest.0, rest.1) out h2)
      (apply_choice-Follows choice l c e, choose_listeners-FollowsAll enabled left ls rest r)

with_primary-listeners :
    (ls : List RouteListener) (spec : Spec)
    → find "listeners" (with_primary ls spec) ≡ find "listeners" spec
with_primary-listeners [] spec = refl
with_primary-listeners (l ∷ ls) spec = elim (Bool-cases l.primary) [
  | inl p ↦
      rw p (find-set_ne "listeners" "containerPort" (number (whole l.container_port)) spec refl)
  | inr p ↦ rw p (with_primary-listeners ls spec)
]

apply_choice-fits :
    (choice : Option SelectedListenerPort) (l c : RouteListener)
    → l.container_port ≤ 65535
    → apply_choice choice l ≡ ok c
    → c.container_port ≤ 65535
unfolding apply_choice
apply_choice-fits none l c s h =
    subst (λ (c : RouteListener). c.container_port ≤ 65535) (ok-injective l c h) s
apply_choice-fits (some p) l c s h = ground arith

choose_listeners-PortsFit :
    (enabled : Option Bool) (requested : Requested) (ls : List RouteListener)
    (out : List RouteListener × Requested)
    → PortsFit ls
    → choose_listeners enabled requested ls ≡ ok out
    → PortsFit out.0
unfolding choose_listeners
choose_listeners-PortsFit enabled requested [] out s h =
    subst (λ (o : List RouteListener × Requested). PortsFit o.0)
      (ok-injective ([], requested) out h) tt
choose_listeners-PortsFit enabled requested (l ∷ ls) out (s, ss) h =
    let choice = first_choice (find l.key requested) (flag_choice enabled l) in
    let left : Requested = if is_missing choice then requested else remove l.key requested in
    let (c, e, h1) = bind-eq-ok (apply_choice choice l) _ h in
    let (rest, r, h2) = bind-eq-ok (choose_listeners enabled left ls) _ h1 in
    subst (λ (o : List RouteListener × Requested). PortsFit o.0)
      (ok-injective (c ∷ rest.0, rest.1) out h2)
      (apply_choice-fits choice l c s e, choose_listeners-PortsFit enabled left ls rest ss r)

AreListeners-PortsFit : (ls : List RouteListener) → All IsListener ls → PortsFit ls
AreListeners-PortsFit [] a = tt
AreListeners-PortsFit (l ∷ ls) (i, a) = (i.port_le, AreListeners-PortsFit ls a)

-- What is parsed of a route that lists the encodings of some listeners.
route_listeners-encoded :
    (spec : Spec) (ls parsed : List RouteListener)
    → find "listeners" spec ≡ some (array (items (encode_route_listeners ls)))
    → PortsFit ls
    → primary_count ls ≢ 0
    → route_listeners spec ≡ ok parsed
    → parsed ≡ ls
unfolding route_listeners
route_listeners-encoded spec [] parsed f s n h = absurd (n refl)
route_listeners-encoded spec (l ∷ ls) parsed f s n h =
    let listed =
      ap (λ f. volumes_or_none (as_array (or_null f))) f
      ∙ elements-items (encode_route_listeners (l ∷ ls)) in
    declared_listeners-encoded spec l ls parsed s (ap (declared_listeners spec) (sym listed) ∙ h)

FollowsAll-primary_count :
    (ls cs : List RouteListener) → FollowsAll ls cs → primary_count cs ≡ primary_count ls
FollowsAll-primary_count [] [] f = refl
FollowsAll-primary_count [] (c ∷ cs) f = absurd f
FollowsAll-primary_count (l ∷ ls) [] f = absurd f
FollowsAll-primary_count (l ∷ ls) (c ∷ cs) (f, fs) =
    cc (f.primary, FollowsAll-primary_count ls cs fs)

-- A route that `selectedRouteSpec` makes of a template and a request has well-formed listeners, one for
-- each listener of the template and in the same order: the key, the remark and the marks are the
-- template's, the port is the template's unless it is editable, and a mapping that the template leaves
-- off is on only where it is available.
pub selected_route_spec-HonoursRoute :
    (template : Spec) (selected : SelectedPorts) (out : Spec)
    → selected_route_spec template selected ≡ ok out
    → HonoursRoute template out
unfolding selected_route_spec
selected_route_spec-HonoursRoute template selected out h =
    let (normalized, n, h1) = bind-eq-ok (normalize_route_spec template) _ h in
    let (listeners, e, h2) = bind-eq-ok (route_listeners normalized) _ h1 in
    let (requested, _, h3) = bind-eq-ok (requested_ports [] selected.listener_ports) _ h2 in
    let (chosen, c, h4) =
      bind-eq-ok (choose_listeners selected.port_mapping_enabled requested listeners) _ h3 in
    let (_, h5) = refuse-eq-ok (not (is_none chosen.1)) port_unknown _ h4 in
    let listed : Value = array (items (encode_route_listeners chosen.0)) in
    let result = set "listeners" listed normalized in
    let (parsed, p, h6) = bind-eq-ok (route_listeners result) _ h5 in
    let (before, b) = normalize_route_spec-parsed template normalized n in
    let (good, again) = normalize_route_spec-listeners template normalized before n b in
    let same_before = ok-injective before listeners (sym again ∙ e) in
    let follows : FollowsAll before chosen.0 =
      subst (λ ls. FollowsAll ls chosen.0) (sym same_before)
        (choose_listeners-FollowsAll selected.port_mapping_enabled requested listeners chosen c) in
    let fit =
      choose_listeners-PortsFit selected.port_mapping_enabled requested listeners chosen
        (subst PortsFit same_before (AreListeners-PortsFit before good.each)) c in
    let field = find-set_self "listeners" listed normalized in
    let primary : primary_count chosen.0 ≢ 0 =
      λ z. ground (arith, FollowsAll-primary_count before chosen.0 follows, good.one_primary) in
    let same_parsed = route_listeners-encoded result chosen.0 parsed field fit primary p in
    let (well, stored) = subst AreStored same_parsed (route_listeners-AreStored result parsed p) in
    let final : find "listeners" out ≡ some listed =
      ap (find "listeners") (sym (ok-injective (with_primary chosen.0 result) out h6))
      ∙ with_primary-listeners chosen.0 result
      ∙ field in
    record {
      before = before;
      after = chosen.0;
      template_listeners = b;
      out_listeners = route_listeners-items out chosen.0 final stored;
      well_formed = well;
      follows = follows;
    }
