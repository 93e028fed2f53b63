-- ===== src/VersionSpecs/Listeners/Stored.antt =====
-- The listeners that internal/httpapi/product_spec.go stores and reads again.
use Prim.Native.String.{String}
use mathlib.Core.Path.{subst}
use cloudmeter.Common.{
  ℕ, suc, ◌≤◌, ◌≡◌, ◌≢◌, refl, ap, ◌⊎◌, inl, inr, Bool, true, false, not, List, [], ◌∷◌, map,
  length, ltb, ◌==◌, All, arith, Option-cases,
}
use cloudmeter.Runtime.Value.{Value, Spec, get, as_array, as_object, member, Distinct}
use cloudmeter.Runtime.Resources.{volumes_or_none}
use cloudmeter.Runtime.Fresh.{Fresh, Fresh-nil, Fresh-cons}
use cloudmeter.Runtime.Patterns.{is_volume_key, char_count}
use cloudmeter.Runtime.Result.{
  ok, need, bind-eq-ok, refuse-eq-ok, ok-injective, listeners_too_many, listener_primary,
  container_port,
}
use cloudmeter.VersionSpecs.Fields.{integer_between}
use cloudmeter.VersionSpecs.Whole.{integer_between-whole, integer_between-bounds}
use cloudmeter.VersionSpecs.Listeners.{
  RouteListener, encode_listener, encode_route_listeners, met, parse_listener, parse_listeners,
  primary_count, web_listener, declared_listeners, route_listeners, route_port_mapping_available,
}

-- A listener that a route may have.
pub record IsListener (l : RouteListener) : Type 0 where
  pub key_valid : is_volume_key l.key ≡ true
  pub port_ge : 1 ≤ l.container_port
  pub port_le : l.container_port ≤ 65535
  pub remark_le : char_count l.remark ≤ 120
  pub mapping_allowed : (l.mapping_enabled ≡ false) ⊎ (l.mapping_available ≡ true)

abbrev pub keys_of : List RouteListener → List String
keys_of = map (λ (l : RouteListener). l.key)

-- The port is that of no listener of the list.
abbrev pub IsFree : ℕ → List RouteListener → Type 0
IsFree p = All (λ (l : RouteListener). l.container_port ≢ p)

abbrev pub DistinctPorts : List RouteListener → Type 0
DistinctPorts [] = Unit
DistinctPorts (l ∷ ls) = IsFree l.container_port ls × DistinctPorts ls

pub record AreListeners (ls : List RouteListener) : Type 0 where
  pub each : All IsListener ls
  pub keys_distinct : Distinct (keys_of ls)
  pub ports_distinct : DistinctPorts ls
  pub one_primary : primary_count ls ≡ 1
  pub few : length ls ≤ 16

-- What an entry that is read gives, and what was tested of it.
parse_listener-IsListener :
    (keys : List String) (ports : List ℕ) (v : Value) (l : RouteListener)
    → parse_listener keys ports v ≡ ok l
    → IsListener l × (member l.key keys ≡ false) × (met l.container_port ports ≡ false)
unfolding parse_listener
parse_listener-IsListener keys ports v l h = elim (Option-cases (as_object v)) [
  | inl e ↦ ground arith
  | inr (item, e) ↦ elim (Option-cases (integer_between 1 65535 (get "containerPort" item))) [
    | inl p ↦ ground arith
    | inr (port, p) ↦
        let (low, high) = integer_between-bounds 1 65535 (get "containerPort" item) port p in
        (
          record {
            key_valid = ground arith;
            port_ge = ground arith;
            port_le = ground arith;
            remark_le = ground arith;
            mapping_allowed = ground arith;
          },
          ground arith,
          ground arith,
        )
  ]
]

-- A listener that passes the tests is read back from its encoding.
parse_listener-encode :
    (keys : List String) (ports : List ℕ) (l : RouteListener)
    → IsListener l
    → member l.key keys ≡ false
    → met l.container_port ports ≡ false
    → parse_listener keys ports (encode_listener l) ≡ ok l
unfolding parse_listener
parse_listener-encode keys ports l i k p =
    let port = integer_between-whole 1 65535 l.container_port i.port_ge i.port_le (omega arith) in
    rw (i.key_valid, k, port, p) (ground arith)

-- The port is none of those met before.
abbrev Unmet : List ℕ → List RouteListener → Type 0
Unmet ports = All (λ (l : RouteListener). met l.container_port ports ≡ false)

Unmet-cons :
    (p : ℕ) (ports : List ℕ) (ls : List RouteListener)
    → Unmet (p ∷ ports) ls
    → IsFree p ls × Unmet ports ls
Unmet-cons p ports [] u = (tt, tt)
Unmet-cons p ports (l ∷ ls) (u, us) =
    let (free, rest) = Unmet-cons p ports ls us in ((ground arith, free), (ground arith, rest))

-- What the loop has of the listeners, when these keys and ports are met before; and the loop reads the
-- listeners back from their encodings.
record Parsed (keys : List String) (ports : List ℕ) (vs : List Value) (ls : List RouteListener)
    : Type 0 where
  each : All IsListener ls
  keys_fresh : Fresh keys (keys_of ls)
  ports_unmet : Unmet ports ls
  ports_distinct : DistinctPorts ls
  as_many : length ls ≡ length vs
  again : parse_listeners keys ports (encode_route_listeners ls) ≡ ok ls

Parsed-cons :
    (keys : List String) (ports : List ℕ) (v : Value) (vs : List Value) (l : RouteListener)
    (ls : List RouteListener)
    → parse_listener keys ports v ≡ ok l
    → Parsed (l.key ∷ keys) (l.container_port ∷ ports) vs ls
    → Parsed keys ports (v ∷ vs) (l ∷ ls)
unfolding parse_listeners
Parsed-cons keys ports v vs l ls e rest =
    let (i, k, p) = parse_listener-IsListener keys ports v l e in
    let (free, unmet) = Unmet-cons l.container_port ports ls rest.ports_unmet in
    record {
      each = (i, rest.each);
      keys_fresh = Fresh-cons l.key keys (keys_of ls) k rest.keys_fresh;
      ports_unmet = (p, unmet);
      ports_distinct = (free, rest.ports_distinct);
      as_many = ap suc rest.as_many;
      again = rw (parse_listener-encode keys ports l i k p, rest.again) refl;
    }

parse_listeners-Parsed :
    (keys : List String) (ports : List ℕ) (vs : List Value) (ls : List RouteListener)
    → parse_listeners keys ports vs ≡ ok ls
    → Parsed keys ports vs ls
unfolding parse_listeners
parse_listeners-Parsed keys ports [] ls h =
    subst (Parsed keys ports []) (ok-injective [] ls h) (record {
      each = tt;
      keys_fresh = Fresh-nil keys;
      ports_unmet = tt;
      ports_distinct = tt;
      as_many = refl;
      again = refl;
    })
parse_listeners-Parsed keys ports (v ∷ vs) es h =
    let (l, e, h1) = bind-eq-ok (parse_listener keys ports v) _ h in
    let (ls, r, h2) =
      bind-eq-ok (parse_listeners (l.key ∷ keys) (l.container_port ∷ ports) vs) _ h1 in
    subst (Parsed keys ports (v ∷ vs)) (ok-injective (l ∷ ls) es h2) (
      Parsed-cons keys ports v vs l ls e
        (parse_listeners-Parsed (l.key ∷ keys) (l.container_port ∷ ports) vs ls r))

-- The listeners are well formed, and a route that lists their encodings has them again.
abbrev pub AreStored : List RouteListener → Type 0
AreStored ls =
    AreListeners ls × ((spec : Spec) → declared_listeners spec (encode_route_listeners ls) ≡ ok ls)

Parsed-AreStored :
    (v : Value) (vs : List Value) (ls : List RouteListener)
    → Parsed [] [] (v ∷ vs) ls
    → length (v ∷ vs) ≤ 16
    → primary_count ls ≡ 1
    → AreStored ls
unfolding declared_listeners
Parsed-AreStored v vs [] p few one = ground arith
Parsed-AreStored v vs (l ∷ ls) p few one =
    let short : ltb 16 (length (encode_route_listeners (l ∷ ls))) ≡ false =
      ground (arith, length-encode ls, p.as_many) in
    let single : (primary_count (l ∷ ls) == 1) ≡ true = ground arith in
    (
      record {
        each = p.each;
        keys_distinct = p.keys_fresh.distinct;
        ports_distinct = p.ports_distinct;
        one_primary = one;
        few = omega (arith, p.as_many);
      },
      λ spec. rw (short, p.again, single) refl,
    )
  where
    length-encode : (ls : List RouteListener) → length (encode_route_listeners ls) ≡ length ls
    length-encode [] = refl
    length-encode (l ∷ ls) = ap suc (length-encode ls)

web-AreStored :
    (port : ℕ) (available : Bool)
    → 1 ≤ port
    → port ≤ 65535
    → AreStored (web_listener port available ∷ [])
unfolding parse_listeners is_volume_key
web-AreStored port available low high =
    let web = web_listener port available in
    let i : IsListener web = record {
      key_valid = refl;
      port_ge = low;
      port_le = high;
      remark_le = omega arith;
      mapping_allowed = inl refl;
    } in
    let e = parse_listener-encode [] [] web i refl refl in
    let rest = parse_listeners-Parsed (web.key ∷ []) (port ∷ []) [] [] refl in
    Parsed-AreStored (encode_listener web) [] (web ∷ [])
      (Parsed-cons [] [] (encode_listener web) [] web [] e rest) (omega arith) refl

declared_listeners-AreStored :
    (spec : Spec) (vs : List Value) (ls : List RouteListener)
    → declared_listeners spec vs ≡ ok ls
    → AreStored ls
unfolding declared_listeners
declared_listeners-AreStored spec [] ls h =
    let (port, e, h1) =
      bind-eq-ok (need (integer_between 1 65535 (get "containerPort" spec)) container_port) _ h in
    let (low, high) =
      integer_between-bounds 1 65535 (get "containerPort" spec) port (ground arith) in
    let available = route_port_mapping_available spec in
    subst AreStored (ok-injective (web_listener port available ∷ []) ls h1)
      (web-AreStored port available low high)
declared_listeners-AreStored spec (v ∷ vs) ls h =
    let (few, h1) = refuse-eq-ok (ltb 16 (length (v ∷ vs))) listeners_too_many _ h in
    let (es, e, h2) = bind-eq-ok (parse_listeners [] [] (v ∷ vs)) _ h1 in
    let (one, h3) = refuse-eq-ok (not (primary_count es == 1)) listener_primary _ h2 in
    subst AreStored (ok-injective es ls h3) (
      Parsed-AreStored v vs es (parse_listeners-Parsed [] [] (v ∷ vs) es e) (ground arith)
        (ground arith))

-- The listeners of a route are well formed.
pub route_listeners-AreStored :
    (spec : Spec) (ls : List RouteListener) → route_listeners spec ≡ ok ls → AreStored ls
unfolding route_listeners
route_listeners-AreStored spec ls h =
    declared_listeners-AreStored spec (volumes_or_none (as_array (get "listeners" spec))) ls h
