-- ===== src/Egress/Proxy/Safe.antt =====
-- Whom the proxy of apps/egress-proxy/main.go serves, and with which address.
use Prim.Native.String.{String}
use text.Mathlib.Text.{◌==◌ as same}
use text.Mathlib.TextEquality.{eq_iff}
use mathlib.Core.Path.{subst}
use cloudmeter.Common.{
  ℕ, ◌≡◌, ◌⊎◌, refl, sym, ap, ◌∙◌, inl, inr, true, false, not, ◌||◌, Option, none, some, List, [],
  ◌∷◌, Bool-cases, Option-cases, arith,
}
use cloudmeter.Common.Text.{byte_len, trim_space, is_empty}
use cloudmeter.Payments.Amount.{parse_int64}
use cloudmeter.Runtime.Patterns.{has_prefix, drop_text}
use cloudmeter.Egress.Address.{Ip, public_ip}
use cloudmeter.Egress.Address.Ranges.{IsOpen, public_ip-IsOpen}
use cloudmeter.Egress.Proxy.Posts.{AreReports, report-AreReports}
use cloudmeter.Egress.Proxy.{
  Network, Request, Reply, Sample, Hijack, cut, host_port, check_credentials, authenticate,
  dial_first, dial_public, tunnel, copy_answer, connect, forward, serve_http, auth_required,
  bad_request, forbidden, bad_gateway, no_tunnel, dropped, forwarded, tunnelled,
}

module _ (net : Network) where
  -- The header names the application, with the MAC of its id as the password.
  pub record IsCaller (r : Request) (app : String) : Type 0 where
    pub decoded : String
    pub is_basic : has_prefix "Basic " (trim_space r.authorization) ≡ true
    pub decodes : net.decode_base64 (drop_text "Basic " (trim_space r.authorization)) ≡ some decoded
    pub credentials : cut b':' decoded ≡ some (app, net.mac_hex app)
    pub is_id : byte_len app ≡ 36

  -- The first of the addresses that is public and answers.
  pub data IsFirst (port : String) : List Ip → Ip → Type 0 where
    here :
        {ip : Ip} {ips : List Ip}
        → IsOpen ip
        → net.answers ip port ≡ true
        → IsFirst port (ip ∷ ips) ip
    later :
        {j ip : Ip} {ips : List Ip}
        → (public_ip j ≡ false) ⊎ (net.answers j port ≡ false)
        → IsFirst port ips ip
        → IsFirst port (j ∷ ips) ip

  pub record Dialled (address default_port : String) (ip : Ip) : Type 0 where
    pub ips : List Ip
    pub resolved : net.lookup_ip (host_port address default_port).0 ≡ some ips
    pub is_first : IsFirst (host_port address default_port).1 ips ip

  -- What a request may lead to.
  pub data Served (r : Request) : Reply × List Sample → Type 0 where
    anonymous : ¬ ((app : String) × IsCaller r app) → Served r (auth_required, [])
    malformed : {app : String} → IsCaller r app → r.is_connect ≡ false → Served r (bad_request, [])
    unreachable : {app : String} → IsCaller r app → Served r (forbidden, [])
    lost :
        {app : String} {ip : Ip}
        → IsCaller r app
        → Dialled r.host "443" ip
        → r.is_connect ≡ true
        → net.hijack ip ≡ Hijack.failed
        → Served r (dropped ip, [])
    not_hijacked :
        {app : String} {ip : Ip}
        → IsCaller r app
        → Dialled r.host "443" ip
        → r.is_connect ≡ true
        → net.hijack ip ≡ Hijack.unsupported
        → Served r (no_tunnel ip, [])
    connected :
        {app : String} {ip : Ip} {written : ℕ} {samples : List Sample}
        → IsCaller r app
        → Dialled r.host "443" ip
        → r.is_connect ≡ true
        → net.hijack ip ≡ Hijack.hijacked written
        → AreReports net app written samples
        → Served r (tunnelled ip written, samples)
    silent :
        {app : String} {ip : Ip}
        → IsCaller r app
        → Dialled r.url_host "80" ip
        → r.is_connect ≡ false
        → r.url_scheme ≡ "http"
        → net.round_trip ip ≡ none
        → Served r (bad_gateway ip, [])
    answered :
        {app : String} {ip : Ip} {status written : ℕ} {samples : List Sample}
        → IsCaller r app
        → Dialled r.url_host "80" ip
        → r.is_connect ≡ false
        → r.url_scheme ≡ "http"
        → net.round_trip ip ≡ some (status, written)
        → AreReports net app written samples
        → Served r (forwarded ip status, samples)

  check_credentials_sound :
      (user password app : String)
      → check_credentials net (user, password) ≡ some app
      → (user ≡ app) × (password ≡ net.mac_hex app) × (byte_len app ≡ 36)
  unfolding check_credentials
  check_credentials_sound user password app h = (
    ground arith,
    ground (arith, eq_iff password (net.mac_hex app), eq_iff user app),
    ground arith,
  )

  authenticate-IsCaller :
      (r : Request) (app : String) → authenticate net r ≡ some app → IsCaller r app
  unfolding authenticate
  authenticate-IsCaller r app h =
      let raw = trim_space r.authorization in
      let is_basic : has_prefix "Basic " raw ≡ true = ground arith in
      elim (Option-cases (net.decode_base64 (drop_text "Basic " raw))) [
        | inl e ↦ ground arith
        | inr (decoded, e) ↦ elim (Option-cases (cut b':' decoded)) [
          | inl f ↦ ground arith
          | inr ((user, password), f) ↦
              let (u, p, l) = check_credentials_sound user password app (ground arith) in
              record {
                decoded = decoded;
                is_basic = is_basic;
                decodes = e;
                credentials = f ∙ ap some (cc);
                is_id = l;
              }
        ]
      ]

  IsCaller-authenticate :
      (r : Request) (app : String) → IsCaller r app → authenticate net r ≡ some app
  unfolding authenticate check_credentials
  IsCaller-authenticate r app c = ground (
    arith,
    c.is_basic,
    c.decodes,
    c.credentials,
    c.is_id,
    eq_iff (net.mac_hex app) (net.mac_hex app),
  )

  dial_first-IsFirst :
      (port : String) (ips : List Ip) (ip : Ip)
      → dial_first net port ips ≡ some ip
      → IsFirst port ips ip
  unfolding dial_first
  dial_first-IsFirst port [] ip h = cc
  dial_first-IsFirst port (j ∷ ips) ip h = elim (Bool-cases (public_ip j)) [
    | inr e ↦ IsFirst.later (inl e) (dial_first-IsFirst port ips ip (ground arith))
    | inl e ↦ elim (Bool-cases (net.answers j port)) [
      | inr f ↦ IsFirst.later (inr f) (dial_first-IsFirst port ips ip (ground arith))
      | inl f ↦
          let same_ip : j ≡ ip = ground arith in
          subst (IsFirst port (j ∷ ips)) same_ip (IsFirst.here (public_ip-IsOpen j e) f)
    ]
  ]

  dial_public-Dialled :
      (address default_port : String) (ip : Ip)
      → dial_public net address default_port ≡ some ip
      → Dialled address default_port ip
  unfolding dial_public
  dial_public-Dialled address default_port ip h =
      let parts = host_port address default_port in
      elim (Option-cases (parse_int64 parts.1)) [
        | inl e ↦ ground arith
        | inr (number, e) ↦ elim (Option-cases (net.lookup_ip parts.0)) [
          | inl f ↦ ground arith
          | inr (ips, f) ↦ record {
            ips = ips;
            resolved = f;
            is_first = dial_first-IsFirst parts.1 ips ip (ground arith);
          }
        ]
      ]

  tunnel-Served :
      (r : Request) (app : String) (ip : Ip) (h : Hijack)
      → net.hijack ip ≡ h
      → IsCaller r app
      → r.is_connect ≡ true
      → Dialled r.host "443" ip
      → Served r (tunnel net app ip h)
  tunnel-Served r app ip Hijack.unsupported e caller c d = Served.not_hijacked caller d c e
  tunnel-Served r app ip Hijack.failed e caller c d = Served.lost caller d c e
  tunnel-Served r app ip (Hijack.hijacked written) e caller c d =
      Served.connected caller d c e (report-AreReports net app written)

  connect-Served :
      (r : Request) (app : String)
      → IsCaller r app
      → r.is_connect ≡ true
      → Served r (connect net r app)
  unfolding connect
  connect-Served r app caller c = elim (Option-cases (dial_public net r.host "443")) [
    | inl e ↦ rw (e, connect) (Served.unreachable caller)
    | inr (ip, e) ↦
        let dialled = dial_public-Dialled r.host "443" ip e in
        rw (e, connect) (tunnel-Served r app ip (net.hijack ip) refl caller c dialled)
  ]

  copy_answer-Served :
      (r : Request) (app : String) (ip : Ip) (answer : Option (ℕ × ℕ))
      → net.round_trip ip ≡ answer
      → IsCaller r app
      → r.is_connect ≡ false
      → r.url_scheme ≡ "http"
      → Dialled r.url_host "80" ip
      → Served r (copy_answer net app ip answer)
  copy_answer-Served r app ip none e caller c h d = Served.silent caller d c h e
  copy_answer-Served r app ip (some (status, written)) e caller c h d =
      Served.answered caller d c h e (report-AreReports net app written)

  forward-Served :
      (r : Request) (app : String)
      → IsCaller r app
      → r.is_connect ≡ false
      → Served r (forward net r app)
  unfolding forward
  forward-Served r app caller c =
      elim (Bool-cases (not (same r.url_scheme "http") || is_empty r.url_host)) [
        | inl m ↦ rw (m, forward) (Served.malformed caller c)
        | inr m ↦ elim (Option-cases (dial_public net r.url_host "80")) [
          | inl e ↦ rw (m, e, forward) (Served.unreachable caller)
          | inr (ip, e) ↦
              let dialled = dial_public-Dialled r.url_host "80" ip e in
              let is_http : r.url_scheme ≡ "http" = ground (arith, eq_iff r.url_scheme "http") in
              rw (m, e, forward)
                (copy_answer-Served r app ip (net.round_trip ip) refl caller c is_http dialled)
        ]
      ]

  -- Only a caller whose password is the MAC of its id is served, over HTTP or by a tunnel, at the first
  -- address of the host that is public and answers, one outside every reserved range. Where a request is
  -- answered or a tunnel closed, the number of bytes that were written to the target is posted under the
  -- caller's id, unless it is 0: again after every post that is not accepted, three times at most.
  pub serve_http-Served : (r : Request) → Served r (serve_http net r)
  unfolding serve_http
  serve_http-Served r = elim (Option-cases (authenticate net r)) [
    | inl e ↦
        rw (e, serve_http)
          (Served.anonymous (λ (app, caller). ground (arith, IsCaller-authenticate r app caller)))
    | inr (app, e) ↦
        let caller = authenticate-IsCaller r app e in
        elim (Bool-cases r.is_connect) [
          | inl c ↦
              let is_tunnel : serve_http net r ≡ connect net r app = ground (arith, e, c) in
              subst (Served r) (sym is_tunnel) (connect-Served r app caller c)
          | inr c ↦
              let is_url : serve_http net r ≡ forward net r app = ground (arith, e, c) in
              subst (Served r) (sym is_url) (forward-Served r app caller c)
        ]
  ]
