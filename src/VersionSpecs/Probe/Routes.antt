-- ===== src/VersionSpecs/Probe/Routes.antt =====
-- The port and the mappings that apps/worker/main.go reads of a route that
-- internal/httpapi/product_spec.go has normalized.
use Prim.Native.String.{String}
use cloudmeter.Common.{
  ℕ, ◌≤◌, ◌≡◌, refl, ap, ◌∙◌, ◌⊎◌, inl, ◌||◌, Option, none, some, List, [], ◌∷◌, All, arith,
  if◌then◌else◌,
}
use cloudmeter.Common.Int.{ℤ}
use cloudmeter.Runtime.Float.{Float, whole}
use cloudmeter.Runtime.Value.{
  Value, array, items, elements-items, Spec, find, get, numeric, or_null,
}
use cloudmeter.Runtime.Result.{ok}
use cloudmeter.VersionSpecs.Whole.{port_or-whole}
use cloudmeter.VersionSpecs.Listeners.{
  RouteListener, encode_route_listeners, route_listeners, primary_count, any_enabled,
}
use cloudmeter.VersionSpecs.Listeners.Stored.{IsListener, route_listeners-AreStored}
use cloudmeter.VersionSpecs.Normalize.{primary_port, normalize_route_spec}
use cloudmeter.VersionSpecs.Normalize.Stored.{
  normalize_route_spec-find, with_listeners-listeners, with_listeners-container_port,
  with_listeners-port,
}
use cloudmeter.VersionSpecs.Probe.{
  reread, stored, port_or, route_port, some_enabled, route_spec_has_enabled_mapping,
}
use cloudmeter.VersionSpecs.Probe.Agrees.{reread_field, find-stored, find-stored-some}

primary_port-bounds :
    (port : ℕ) (ls : List RouteListener)
    → All IsListener ls
    → (1 ≤ primary_count ls) ⊎ ((1 ≤ port) × (port ≤ 65535))
    → (1 ≤ primary_port port ls) × (primary_port port ls ≤ 65535)
primary_port-bounds port [] a h = ground arith
primary_port-bounds port (l ∷ ls) (i, a) h =
    primary_port-bounds (if l.primary then l.container_port else port) ls a
      (ground (arith, i.port_ge, i.port_le))

some_enabled-encode :
    (ls : List RouteListener) → some_enabled (encode_route_listeners ls) ≡ any_enabled ls
some_enabled-encode [] = refl
some_enabled-encode (l ∷ ls) = ap (λ b. l.mapping_enabled || b) (some_enabled-encode ls)

numeric-reread : (v : Value) → numeric (reread v) ≡ numeric v
numeric-reread v = ground arith

numeric-stored : (k : String) (m : Spec) → numeric (get k (stored m)) ≡ numeric (get k m)
numeric-stored k m = ap (λ f. numeric (or_null f)) (find-stored k m) ∙ field (find k m)
  where
    field : (f : Option Value) → numeric (or_null (reread_field f)) ≡ numeric (or_null f)
    field none = refl
    field (some v) = numeric-reread v

-- What the worker reads of a stored route: the port of the primary listener, unless the route has a
-- number in the field `port`, which goes first where it is in range; and whether a mapping is enabled.
pub record AgreesOnRoute (spec out : Spec) (ls : List RouteListener) : Type 0 where
  pub port :
      route_port (stored out) ≡ port_or (ℤ.pos (primary_port 0 ls)) (numeric (get "port" spec))
  pub primary_ge : 1 ≤ primary_port 0 ls
  pub primary_le : primary_port 0 ls ≤ 65535
  pub mapping : route_spec_has_enabled_mapping (stored out) ≡ any_enabled ls

route_port-parts :
    (m : Spec) (n : ℕ) (first : Option Float)
    → numeric (get "containerPort" m) ≡ some (whole n)
    → numeric (get "port" m) ≡ first
    → 1 ≤ n
    → n ≤ 65535
    → route_port m ≡ port_or (ℤ.pos n) first
unfolding route_port
route_port-parts m n first c p l h =
    ap (λ f. port_or (port_or (ℤ.pos 8080) (numeric (get "containerPort" m))) f) p
    ∙ ap (λ f. port_or (port_or (ℤ.pos 8080) f) first) c
    ∙ ap (λ z. port_or z first) (port_or-whole (ℤ.pos 8080) n l h)

enabled-parts :
    (m : Spec) (ls : List RouteListener)
    → find "listeners" m ≡ some (array (items (encode_route_listeners ls)))
    → route_spec_has_enabled_mapping m ≡ any_enabled ls
unfolding route_spec_has_enabled_mapping
enabled-parts m ls e = rw (e, elements-items (encode_route_listeners ls)) (some_enabled-encode ls)

-- The worker reads of a stored, normalized route the port of its one primary listener, from 1 to
-- 65535, unless the route has a number in range in the old field `port`, whose whole part it then
-- takes; and it finds an enabled mapping exactly when a listener of the route has one.
pub normalize_route_spec-AgreesOnRoute :
    (spec out : Spec) (ls : List RouteListener)
    → normalize_route_spec spec ≡ ok out
    → route_listeners spec ≡ ok ls
    → AgreesOnRoute spec out ls
normalize_route_spec-AgreesOnRoute spec out ls h l =
    let good = (route_listeners-AreStored spec ls l).0 in
    let kept = λ (k : String). normalize_route_spec-find k spec out ls l h in
    let container =
      kept "containerPort" (refl, refl, refl, refl, refl, refl)
      ∙ with_listeners-container_port ls spec in
    let listed =
      kept "listeners" (refl, refl, refl, refl, refl, refl) ∙ with_listeners-listeners ls spec in
    let port = kept "port" (refl, refl, refl, refl, refl, refl) ∙ with_listeners-port ls spec in
    let (low, high) = primary_port-bounds 0 ls good.each (inl (omega (arith, good.one_primary))) in
    let n = primary_port 0 ls in
    let first = numeric-stored "port" out ∙ ap (λ f. numeric (or_null f)) port in
    let second = numeric-stored "containerPort" out ∙ ap (λ f. numeric (or_null f)) container in
    record {
      port = route_port-parts (stored out) n (numeric (get "port" spec)) second first low high;
      primary_ge = low;
      primary_le = high;
      mapping =
          enabled-parts (stored out) ls
            (find-stored-some "listeners" out (array (items (encode_route_listeners ls))) listed);
    }
