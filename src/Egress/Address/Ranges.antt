-- ===== src/Egress/Address/Ranges.antt =====
-- The ranges of addresses that `publicIP` of apps/egress-proxy/main.go keeps out.
use cloudmeter.Common.{
  ℕ, ◌+◌, ◌*◌, ◌%◌, ◌<◌, ◌≡◌, ◌≢◌, ◌⊎◌, inl, inr, true, false, Bool-cases, arith,
}
use cloudmeter.Egress.Address.{Ip, v4, v6, mapped, passes, public_ip}

-- a.b.c.d.
abbrev pub quad : ℕ → ℕ → ℕ → ℕ → ℕ
quad a b c d = ((a * 256 + b) * 256 + c) * 256 + d

-- An address of 16 bytes by its first 32 bits, the others as given.
abbrev pub block : ℕ → ℕ → ℕ
block first others = first * 79228162514264337593543950336 + others

abbrev pub Outside : ℕ → ℕ → ℕ → Type 0
Outside lo hi n = (n < lo) ⊎ (hi < n)

-- An address of 4 bytes outside every reserved range that the proxy knows.
pub record IsOpen4 (n : ℕ) : Type 0 where
  pub specified : n ≢ 0
  pub not_private_10 : Outside (quad 10 0 0 0) (quad 10 255 255 255) n
  pub not_shared : Outside (quad 100 64 0 0) (quad 100 127 255 255) n
  pub not_loopback : Outside (quad 127 0 0 0) (quad 127 255 255 255) n
  pub not_link_local : Outside (quad 169 254 0 0) (quad 169 254 255 255) n
  pub not_private_172 : Outside (quad 172 16 0 0) (quad 172 31 255 255) n
  pub not_protocol : Outside (quad 192 0 0 0) (quad 192 0 0 255) n
  pub not_private_192 : Outside (quad 192 168 0 0) (quad 192 168 255 255) n
  pub not_benchmark : Outside (quad 198 18 0 0) (quad 198 19 255 255) n
  pub not_multicast : Outside (quad 224 0 0 0) (quad 239 255 255 255) n
  pub not_broadcast : n ≢ quad 255 255 255 255

-- An address of 16 bytes outside every reserved range that the proxy knows: ::, ::1, 2001:db8::/32,
-- fc00::/7, fe80::/10 and ff00::/8.
pub record IsOpen6 (n : ℕ) : Type 0 where
  pub specified : n ≢ 0
  pub not_loopback : n ≢ 1
  pub not_documentation :
      Outside (block 0x20010db8 0) (block 0x20010db8 79228162514264337593543950335) n
  pub not_unique_local :
      Outside (block 0xfc000000 0) (block 0xfdffffff 79228162514264337593543950335) n
  pub not_link_local :
      Outside (block 0xfe800000 0) (block 0xfebfffff 79228162514264337593543950335) n
  pub not_multicast :
      Outside (block 0xff000000 0) (block 0xffffffff 79228162514264337593543950335) n

-- An address that maps one of 4 bytes is as open as that one.
pub data IsOpen : Ip → Type 0 where
  four : {n : ℕ} → IsOpen4 n → IsOpen (v4 n)
  as_four : {n : ℕ} → mapped n ≡ true → IsOpen4 (n % 4294967296) → IsOpen (v6 n)
  six : {n : ℕ} → mapped n ≡ false → IsOpen6 n → IsOpen (v6 n)

passes-IsOpen4 : (n : ℕ) → passes (v4 n) ≡ true → IsOpen4 n
passes-IsOpen4 n h = record {
  specified = ground arith;
  not_private_10 = ground arith;
  not_shared = ground arith;
  not_loopback = ground arith;
  not_link_local = ground arith;
  not_private_172 = ground arith;
  not_protocol = ground arith;
  not_private_192 = ground arith;
  not_benchmark = ground arith;
  not_multicast = ground arith;
  not_broadcast = ground arith;
}

passes-IsOpen6 : (n : ℕ) → passes (v6 n) ≡ true → IsOpen6 n
passes-IsOpen6 n h = record {
  specified = ground arith;
  not_loopback = ground arith;
  not_documentation = ground arith;
  not_unique_local = ground arith;
  not_link_local = ground arith;
  not_multicast = ground arith;
}

-- An address that the proxy takes for public is outside the reserved ranges.
pub public_ip-IsOpen : (ip : Ip) → public_ip ip ≡ true → IsOpen ip
unfolding public_ip
public_ip-IsOpen (v4 n) h = IsOpen.four (passes-IsOpen4 n h)
public_ip-IsOpen (v6 n) h = elim (Bool-cases (mapped n)) [
  | inl m ↦ IsOpen.as_four m (passes-IsOpen4 (n % 4294967296) (rw m at h))
  | inr m ↦ IsOpen.six m (passes-IsOpen6 n (rw m at h))
]
