-- ===== src/Egress/Proxy.antt =====
-- The handler of apps/egress-proxy/main.go: `authenticate`, `dialPublic`, `ServeHTTP`, `connect` and
-- `report`. A connection is named by the address that was dialled.
mod Posts
pub mod Safe
use Prim.Native.Char.{code}
use Prim.Native.String.{String, [], ◌∷◌}
use text.Mathlib.Text.{◌==◌ as same}
use cloudmeter.Common.{
  ℕ, zero, suc, ◌+◌, Bool, true, false, not, ◌&&◌, ◌||◌, ◌==◌, Option, none, some, List,
  if◌then◌else◌,
}
use cloudmeter.Common.Text.{all_chars, byte_len, trim_space, is_empty, starts_with_char}
use cloudmeter.Payments.Amount.{parse_int64}
use cloudmeter.Runtime.Patterns.{has_prefix, drop_text}
use cloudmeter.Egress.Address.{Ip, public_ip}

-- What became of a hijacked connection.
pub data Hijack : Type 0 where
  unsupported failed : Hijack
  hijacked : ℕ → Hijack

-- What the proxy calls: the resolver and the connections of package net (`answers ip port` says whether
-- one is made), encoding/base64, the HMAC under its token in hexadecimal digits, the answer of a target
-- with the number of bytes written to it, the hijacked connection with that number, and the answers to
-- the posts of a sample.
pub record Network : Type 0 where
  pub lookup_ip : String → Option (List Ip)
  pub answers : Ip → String → Bool
  pub decode_base64 : String → Option String
  pub mac_hex : String → String
  pub round_trip : Ip → Option (ℕ × ℕ)
  pub hijack : Ip → Hijack
  pub post : ℕ → Option ℕ

pub record Request : Type 0 where
  pub authorization : String
  pub is_connect : Bool
  pub host : String
  pub url_scheme : String
  pub url_host : String

-- The answer to the client.
pub data Reply : Type 0 where
  auth_required bad_request forbidden : Reply
  bad_gateway no_tunnel dropped : Ip → Reply
  forwarded tunnelled : Ip → ℕ → Reply

-- A sample that was posted: the application and the bytes it sent.
pub record Sample : Type 0 where
  pub app_id : String
  pub byte_delta : ℕ

-- strings.SplitN(s, sep, 2) with one character, where there are two parts.
unfoldable pub cut : ℕ → String → Option (String × String)
cut sep [] = none
cut sep (c ∷ s) =
    let rest = cut sep s in
    if code c == sep
    then some ([], s)
    else elim rest [ none ↦ none | some (before, after) ↦ some (c ∷ before, after) ]

abbrev pub lacks : ℕ → String → Bool
lacks c = all_chars (λ d. not (d == c))

abbrev pub has_no_bracket : String → Bool
has_no_bracket s = lacks b'[' s && lacks b']' s

-- The part behind the bracket that closes the host.
abbrev pub bracketed : String → String → Option (String × String)
bracketed host [] = none
bracketed host (c ∷ port) =
    if code c == b':' && lacks b'[' host && has_no_bracket port && lacks b':' port
    then some (host, port)
    else none

-- net.SplitHostPort.
unfoldable pub split_host_port : String → Option (String × String)
unfolding cut all_chars
split_host_port s =
    if starts_with_char b'[' s
    then elim (cut b']' (drop_text "[" s)) [ none ↦ none | some (host, rest) ↦ bracketed host rest ]
    else elim (cut b':' s) [
      | none ↦ none
      | some (host, port) ↦ if lacks b':' port && has_no_bracket s then some (host, port) else none
    ]

unfoldable pub host_port : String → String → String × String
unfolding split_host_port
host_port address default_port = elim (split_host_port address) [
  | none ↦ (address, default_port)
  | some parts ↦ parts
]

module _ (net : Network) where
  -- The user, when the password is the MAC of the user.
  unfoldable pub check_credentials : String × String → Option String
  unfolding byte_len
  check_credentials (user, password) =
      let expected = net.mac_hex user in
      if not (byte_len user == 36)
      then none
      else if byte_len password == byte_len expected && same password expected
      then some user
      else none

  unfoldable pub authenticate : Request → Option String
  unfolding trim_space has_prefix cut check_credentials
  authenticate r =
      let raw = trim_space r.authorization in
      if not (has_prefix "Basic " raw)
      then none
      else elim (net.decode_base64 (drop_text "Basic " raw)) [
        | none ↦ none
        | some decoded ↦ elim (cut b':' decoded) [
          | none ↦ none
          | some credentials ↦ check_credentials credentials
        ]
      ]

  -- The loop over the addresses.
  unfoldable pub dial_first : String → List Ip → Option Ip
  unfolding public_ip
  dial_first port List.[] = none
  dial_first port (List.◌∷◌ ip ips) =
      let rest = dial_first port ips in
      if not (public_ip ip) then rest else if net.answers ip port then some ip else rest

  unfoldable pub dial_public : String → String → Option Ip
  unfolding dial_first host_port parse_int64
  dial_public address default_port =
      let parts = host_port address default_port in
      elim (parse_int64 parts.1) [
        | none ↦ none
        | some _ ↦ elim (net.lookup_ip parts.0) [ none ↦ none | some ips ↦ dial_first parts.1 ips ]
      ]

  -- What follows a post: nothing once it is accepted.
  abbrev pub unless_accepted : Option ℕ → List Sample → List Sample
  unless_accepted none more = more
  unless_accepted (some status) more = if status == 202 then List.[] else more

  -- The attempts that are left, from the one with the given number on.
  unfoldable pub attempts : ℕ → ℕ → Sample → List Sample
  attempts zero n s = List.[]
  attempts (suc left) n s = List.◌∷◌ s (unless_accepted (net.post n) (attempts left (suc n) s))

  unfoldable pub report : String → ℕ → List Sample
  unfolding attempts
  report app delta =
      if delta == 0 then List.[] else attempts 3 0 (record { app_id = app; byte_delta = delta })

  -- The rest of `connect`, once the target is dialled.
  abbrev pub tunnel : String → Ip → Hijack → Reply × List Sample
  tunnel app target Hijack.unsupported = (no_tunnel target, List.[])
  tunnel app target Hijack.failed = (dropped target, List.[])
  tunnel app target (Hijack.hijacked written) = (tunnelled target written, report app written)

  unfoldable pub connect : Request → String → Reply × List Sample
  unfolding dial_public report
  connect r app = elim (dial_public r.host "443") [
    | none ↦ (forbidden, List.[])
    | some target ↦ tunnel app target (net.hijack target)
  ]

  -- The answer of a target. Nothing is reported where there is none.
  abbrev pub copy_answer : String → Ip → Option (ℕ × ℕ) → Reply × List Sample
  copy_answer app conn none = (bad_gateway conn, List.[])
  copy_answer app conn (some (status, written)) = (forwarded conn status, report app written)

  -- A request for a URL.
  unfoldable pub forward : Request → String → Reply × List Sample
  unfolding dial_public report
  forward r app =
      if not (same r.url_scheme "http") || is_empty r.url_host
      then (bad_request, List.[])
      else elim (dial_public r.url_host "80") [
        | none ↦ (forbidden, List.[])
        | some conn ↦ copy_answer app conn (net.round_trip conn)
      ]

  unfoldable pub serve_http : Request → Reply × List Sample
  unfolding authenticate connect forward
  serve_http r = elim (authenticate r) [
    | none ↦ (auth_required, List.[])
    | some app ↦ if r.is_connect then connect r app else forward r app
  ]
