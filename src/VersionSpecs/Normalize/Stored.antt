-- ===== src/VersionSpecs/Normalize/Stored.antt =====
-- What a normalized route of internal/httpapi/product_spec.go holds, for the functions that read it.
use Prim.Native.String.{String}
use text.Mathlib.Text.{◌==◌ as same}
use mathlib.Core.Path.{subst}
use cloudmeter.Common.{
  ◌≡◌, refl, sym, ap, ◌∙◌, Bool, true, false, Option, none, some, List, [], ◌∷◌, if◌then◌else◌,
}
use cloudmeter.Runtime.Float.{whole}
use cloudmeter.Runtime.Value.{
  Value, number, string, boolean, object, fields, array, items, elements-items, Spec, find, get,
  set, remove, as_object, find-set_ne, find-set_self, find-remove_ne,
}
use cloudmeter.Runtime.Result.{ok, ◌>>=◌, bind-eq-ok, ok-injective}
use cloudmeter.VersionSpecs.Fields.{flag, normalized_absolute_path, normalized_boolean}
use cloudmeter.Common.Text.{is_empty}
use cloudmeter.VersionSpecs.Listeners.{
  RouteListener, encode_route_listeners, declared_listeners, route_listeners,
}
use cloudmeter.VersionSpecs.Listeners.Stored.{AreListeners, route_listeners-AreStored}
use cloudmeter.VersionSpecs.Normalize.{
  primary_port, normalize_mapping, with_listeners, with_base_path, normalize_route_spec,
}

module _ (k : String) where
  with_base_path-find :
      (spec out : Spec)
      → with_base_path spec ≡ ok out
      → same "basePath" k ≡ false
      → same "stripPrefix" k ≡ false
      → find k out ≡ find k spec
  unfolding with_base_path
  with_base_path-find spec out h a b =
      let (path, e, h1) = bind-eq-ok (normalized_absolute_path (get "basePath" spec) false) _ h in
      let v : Value = string (if is_empty path then "/" else path) in
      subst (λ o. find k o ≡ find k spec)
        (ok-injective (remove "stripPrefix" (set "basePath" v spec)) out h1)
        (find-remove_ne k "stripPrefix" (set "basePath" v spec) b
          ∙ find-set_ne k "basePath" v spec a)

  normalized_boolean-find :
      (spec : Spec) (key : String) (fallback : Bool) (out : Bool × Spec)
      → normalized_boolean spec key fallback ≡ ok out
      → same key k ≡ false
      → find k out.1 ≡ find k spec
  unfolding normalized_boolean
  normalized_boolean-find spec key fallback out h a =
      let (value, e, h1) = bind-eq-ok (flag (find key spec) fallback) _ h in
      subst (λ o. find k o.1 ≡ find k spec)
        (ok-injective (value, set key (boolean value) spec) out h1)
        (find-set_ne k key (boolean value) spec a)

  normalize_mapping-find :
      (spec out : Spec)
      → normalize_mapping spec ≡ ok out
      → same "portMapping" k ≡ false
      → find k out ≡ find k spec
  unfolding normalize_mapping
  normalize_mapping-find spec out h a = from (as_object (get "portMapping" spec)) h
    where
      from :
          (field : Option Spec)
          → (elim field [
            | none ↦ ok (remove "portMapping" spec)
            | some mapping ↦ do
              available ← normalized_boolean mapping "available" false
              ok (
                  set "portMapping"
                    (object (fields (("available", boolean available.0) ∷ [])))
                    spec)
          ])
            ≡ ok out
          → find k out ≡ find k spec
      from none h =
          subst (λ o. find k o ≡ find k spec) (ok-injective (remove "portMapping" spec) out h)
            (find-remove_ne k "portMapping" spec a)
      from (some mapping) h =
          let (available, e, h1) = bind-eq-ok (normalized_boolean mapping "available" false) _ h in
          let v : Value = object (fields (("available", boolean available.0) ∷ [])) in
          subst (λ o. find k o ≡ find k spec) (ok-injective (set "portMapping" v spec) out h1)
            (find-set_ne k "portMapping" v spec a)

  -- A field that the normalization of a route neither sets nor removes after the listeners is stored
  -- as the listeners leave it.
  pub normalize_route_spec-find :
      (spec out : Spec) (ls : List RouteListener)
      → route_listeners spec ≡ ok ls
      → normalize_route_spec spec ≡ ok out
      → (same "basePath" k ≡ false)
        × (same "stripPrefix" k ≡ false)
        × (same "websocket" k ≡ false)
        × (same "sse" k ≡ false)
        × (same "cookiePath" k ≡ false)
        × (same "portMapping" k ≡ false)
      → find k out ≡ find k (with_listeners ls spec)
  unfolding normalize_route_spec
  normalize_route_spec-find spec out ls l h (a, b, c, d, e, f) =
      let (ls', r, h1) = bind-eq-ok (route_listeners spec) _ h in
      let same_ls = ok-injective ls' ls (sym r ∙ l) in
      let (pathed, p, h2) = bind-eq-ok (with_base_path (with_listeners ls' spec)) _ h1 in
      let (socketed, s, h3) = bind-eq-ok (normalized_boolean pathed "websocket" true) _ h2 in
      let (streamed, t, h4) = bind-eq-ok (normalized_boolean socketed.1 "sse" true) _ h3 in
      normalize_mapping-find (remove "cookiePath" streamed.1) out h4 f
      ∙ find-remove_ne k "cookiePath" streamed.1 e
      ∙ normalized_boolean-find socketed.1 "sse" true streamed t d
      ∙ normalized_boolean-find pathed "websocket" true socketed s c
      ∙ with_base_path-find (with_listeners ls' spec) pathed p a b
      ∙ ap (λ ls. find k (with_listeners ls spec)) same_ls

pub with_listeners-listeners :
    (ls : List RouteListener) (spec : Spec)
    → find "listeners" (with_listeners ls spec) ≡ some (array (items (encode_route_listeners ls)))
unfolding with_listeners
with_listeners-listeners ls spec =
    let port : Value = number (whole (primary_port 0 ls)) in
    let shown : Value = array (items (encode_route_listeners ls)) in
    let ported = set "containerPort" port spec in
    let listed = set "listeners" shown ported in
    let edited = remove "portEditable" listed in
    find-remove_ne "listeners" "portEnvVar" edited refl
    ∙ find-remove_ne "listeners" "portEditable" listed refl
    ∙ find-set_self "listeners" shown ported

pub with_listeners-container_port :
    (ls : List RouteListener) (spec : Spec)
    → find "containerPort" (with_listeners ls spec) ≡ some (number (whole (primary_port 0 ls)))
unfolding with_listeners
with_listeners-container_port ls spec =
    let port : Value = number (whole (primary_port 0 ls)) in
    let shown : Value = array (items (encode_route_listeners ls)) in
    let ported = set "containerPort" port spec in
    let listed = set "listeners" shown ported in
    let edited = remove "portEditable" listed in
    find-remove_ne "containerPort" "portEnvVar" edited refl
    ∙ find-remove_ne "containerPort" "portEditable" listed refl
    ∙ find-set_ne "containerPort" "listeners" shown ported refl
    ∙ find-set_self "containerPort" port spec

pub with_listeners-port :
    (ls : List RouteListener) (spec : Spec)
    → find "port" (with_listeners ls spec) ≡ find "port" spec
unfolding with_listeners
with_listeners-port ls spec =
    let port : Value = number (whole (primary_port 0 ls)) in
    let shown : Value = array (items (encode_route_listeners ls)) in
    let ported = set "containerPort" port spec in
    let listed = set "listeners" shown ported in
    let edited = remove "portEditable" listed in
    find-remove_ne "port" "portEnvVar" edited refl
    ∙ find-remove_ne "port" "portEditable" listed refl
    ∙ find-set_ne "port" "listeners" shown ported refl
    ∙ find-set_ne "port" "containerPort" port spec refl

pub route_listeners-items :
    (spec : Spec) (ls : List RouteListener)
    → find "listeners" spec ≡ some (array (items (encode_route_listeners ls)))
    → ((spec : Spec) → declared_listeners spec (encode_route_listeners ls) ≡ ok ls)
    → route_listeners spec ≡ ok ls
unfolding route_listeners
route_listeners-items spec ls e again =
    rw (e, elements-items (encode_route_listeners ls)) (again spec)

-- A normalized route lists the listeners of the route that was normalized, again and the same, and
-- they are well formed: valid, distinct keys, distinct ports from 1 to 65535, exactly one primary
-- listener, and no mapping that is not available.
pub normalize_route_spec-listeners :
    (spec out : Spec) (ls : List RouteListener)
    → normalize_route_spec spec ≡ ok out
    → route_listeners spec ≡ ok ls
    → AreListeners ls × (route_listeners out ≡ ok ls)
normalize_route_spec-listeners spec out ls h l =
    let (good, again) = route_listeners-AreStored spec ls l in
    let field =
      normalize_route_spec-find "listeners" spec out ls l h (refl, refl, refl, refl, refl, refl)
      ∙ with_listeners-listeners ls spec in
    (good, route_listeners-items out ls field again)

-- A route that is normalized has listeners.
pub normalize_route_spec-parsed :
    (spec out : Spec)
    → normalize_route_spec spec ≡ ok out
    → (ls : List RouteListener) × (route_listeners spec ≡ ok ls)
unfolding normalize_route_spec
normalize_route_spec-parsed spec out h =
    let (ls, e, _) = bind-eq-ok (route_listeners spec) _ h in (ls, e)
