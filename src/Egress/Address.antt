-- ===== src/Egress/Address.antt =====
-- `publicIP` of apps/egress-proxy/main.go, with the tests of net.IP that it calls.
pub mod Ranges
use cloudmeter.Common.{ℕ, ◌/◌, ◌%◌, Bool, true, false, not, ◌&&◌, ◌||◌, ◌==◌, if◌then◌else◌}

-- An address of 4 or of 16 bytes, as one number. An address of 16 bytes that maps one of 4 bytes is
-- that one for every test: `to4` is net.IP.To4.
pub data Ip : Type 0 where
  v4 v6 : ℕ → Ip

abbrev pub mapped : ℕ → Bool
mapped n = n / 4294967296 == 65535

abbrev pub to4 : Ip → Ip
to4 (v4 n) = v4 n
to4 (v6 n) = if mapped n then v4 (n % 4294967296) else v6 n

abbrev pub is_unspecified : Ip → Bool
is_unspecified (v4 n) = n == 0
is_unspecified (v6 n) = n == 0

-- 127.0.0.0/8 and ::1.
abbrev pub is_loopback : Ip → Bool
is_loopback (v4 n) = n / 16777216 == 127
is_loopback (v6 n) = n == 1

-- 10.0.0.0/8, 172.16.0.0/12, 192.168.0.0/16 and fc00::/7.
abbrev pub is_private : Ip → Bool
is_private (v4 n) = n / 16777216 == 10 || n / 1048576 == 2753 || n / 65536 == 49320
is_private (v6 n) = n / 2658455991569831745807614120560689152 == 126

-- 224.0.0.0/4 and ff00::/8.
abbrev pub is_multicast : Ip → Bool
is_multicast (v4 n) = n / 268435456 == 14
is_multicast (v6 n) = n / 1329227995784915872903807060280344576 == 255

-- 169.254.0.0/16 and fe80::/10.
abbrev pub is_link_local_unicast : Ip → Bool
is_link_local_unicast (v4 n) = n / 65536 == 43518
is_link_local_unicast (v6 n) = n / 332306998946228968225951765070086144 == 1018

abbrev pub is_broadcast : Ip → Bool
is_broadcast (v4 n) = n == 4294967295
is_broadcast (v6 n) = false

abbrev pub is_global_unicast : Ip → Bool
is_global_unicast ip =
    not (is_broadcast ip)
    && not (is_unspecified ip)
    && not (is_loopback ip)
    && not (is_multicast ip)
    && not (is_link_local_unicast ip)

-- The blocked networks: 100.64.0.0/10, 192.0.0.0/24 and 198.18.0.0/15; 2001:db8::/32 and fc00::/7. A
-- network contains addresses of its own length only.
abbrev pub is_blocked : Ip → Bool
is_blocked (v4 n) = n / 4194304 == 401 || n / 256 == 12582912 || n / 131072 == 25353
is_blocked (v6 n) =
    n / 79228162514264337593543950336 == 536939960
    || n / 2658455991569831745807614120560689152 == 126

abbrev pub passes : Ip → Bool
passes ip =
    not (
      not (is_global_unicast ip)
      || is_private ip
      || is_loopback ip
      || is_link_local_unicast ip
      || is_unspecified ip)
    && not (is_blocked ip)

unfoldable pub public_ip : Ip → Bool
public_ip ip = passes (to4 ip)
