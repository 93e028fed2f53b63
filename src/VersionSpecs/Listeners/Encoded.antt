-- ===== src/VersionSpecs/Listeners/Encoded.antt =====
-- The encodings of listeners in internal/httpapi/product_spec.go determine the listeners.
use Prim.Native.String.{String}
use cloudmeter.Common.{
  ℕ, ◌≤◌, ◌≡◌, sym, ◌∙◌, inl, inr, not, List, [], ◌∷◌, length, ltb, ◌==◌, All, arith, Option-cases,
}
use cloudmeter.Runtime.Float.{whole}
use cloudmeter.Runtime.Value.{number, Spec}
use cloudmeter.Runtime.Result.{
  ok, bind-eq-ok, refuse-eq-ok, ok-injective, listeners_too_many, listener_primary,
}
use cloudmeter.VersionSpecs.Fields.{integer_between}
use cloudmeter.VersionSpecs.Whole.{integer_between-whole_only}
use cloudmeter.VersionSpecs.Listeners.{
  RouteListener, encode_listener, encode_route_listeners, parse_listener, parse_listeners,
  primary_count, declared_listeners,
}

abbrev pub PortsFit : List RouteListener → Type 0
PortsFit = All (λ (l : RouteListener). l.container_port ≤ 65535)

-- What is parsed from the encoding of a listener is that listener.
parse_listener-encoded :
    (keys : List String) (ports : List ℕ) (l c : RouteListener)
    → l.container_port ≤ 65535
    → parse_listener keys ports (encode_listener l) ≡ ok c
    → c ≡ l
unfolding parse_listener
parse_listener-encoded keys ports l c s h =
    elim (Option-cases (integer_between 1 65535 (number (whole l.container_port)))) [
      | inl p ↦ ground arith
      | inr (port, p) ↦
          let same = integer_between-whole_only 1 65535 l.container_port port s p in ground arith
    ]

parse_listeners-encoded :
    (keys : List String) (ports : List ℕ) (ls cs : List RouteListener)
    → PortsFit ls
    → parse_listeners keys ports (encode_route_listeners ls) ≡ ok cs
    → cs ≡ ls
unfolding parse_listeners
parse_listeners-encoded keys ports [] cs s h = sym (ok-injective [] cs h)
parse_listeners-encoded keys ports (l ∷ ls) cs (s, ss) h =
    let (c, e, h1) = bind-eq-ok (parse_listener keys ports (encode_listener l)) _ h in
    let (rest, r, h2) =
      bind-eq-ok
        (parse_listeners (c.key ∷ keys) (c.container_port ∷ ports) (encode_route_listeners ls)) _
        h1 in
    let ih = parse_listeners-encoded (c.key ∷ keys) (c.container_port ∷ ports) ls rest ss r in
    cc (ok-injective (c ∷ rest) cs h2, parse_listener-encoded keys ports l c s e, ih)

pub declared_listeners-encoded :
    (spec : Spec) (l : RouteListener) (ls cs : List RouteListener)
    → PortsFit (l ∷ ls)
    → declared_listeners spec (encode_route_listeners (l ∷ ls)) ≡ ok cs
    → cs ≡ l ∷ ls
unfolding declared_listeners
declared_listeners-encoded spec l ls cs s h =
    let vs = encode_route_listeners (l ∷ ls) in
    let (few, h1) = refuse-eq-ok (ltb 16 (length vs)) listeners_too_many _ h in
    let (es, e, h2) = bind-eq-ok (parse_listeners [] [] vs) _ h1 in
    let (one, h3) = refuse-eq-ok (not (primary_count es == 1)) listener_primary _ h2 in
    sym (ok-injective es cs h3) ∙ parse_listeners-encoded [] [] (l ∷ ls) es s e
