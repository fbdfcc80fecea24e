-- ===== src/NetworkAddresses.antt =====
-- The support of IP versions in youtube_test/src: get_ip_version_support of network_addresses.c, and
-- the version that init_quic_client of youtube-dl.c takes. `none` is a fault: an interface whose
-- address is NULL.
mod Support
mod Tests
use thesis_share.Base.{
  ◌>>=◌, ℕ, Bool, true, false, ◌&&◌, not, Option, none, some, List, [], ◌∷◌, ◌==◌, if◌then◌else◌,
}
use thesis_share.Arguments.{IPv, ipv_system, ipv4, ipv6}

pub data IpSupport : Type 0 where
  ip_support_none ip_support_ipv4 ip_support_ipv6 ip_support_both : IpSupport

-- The address of an interface: that of version 4 as `s_addr`, that of version 6 as what the macros
-- IN6_IS_ADDR_LOOPBACK and IN6_IS_ADDR_MC_GLOBAL tell.
pub data Address : Type 0 where
  af_inet : (s_addr : ℕ) → Address
  af_inet6 : (is_loopback is_mc_global : Bool) → Address
  other_family : Address

-- INADDR_LOOPBACK, 0x7f000001.
abbrev pub inaddr_loopback : ℕ
inaddr_loopback = 2130706433

-- The support after an address of version 4 that counts, and whether the loop is left.
pub add_ipv4 : IpSupport → Bool × IpSupport
add_ipv4 ip_support_none = (false, ip_support_ipv4)
add_ipv4 ip_support_ipv6 = (true, ip_support_both)
add_ipv4 support = (false, support)

pub add_ipv6 : IpSupport → Bool × IpSupport
add_ipv6 ip_support_none = (false, ip_support_ipv6)
add_ipv6 ip_support_ipv4 = (true, ip_support_both)
add_ipv6 support = (false, support)

-- The body of the loop.
pub add_address : Address → IpSupport → Bool × IpSupport
unfolding add_ipv4 add_ipv6
add_address (af_inet s_addr) support =
    if s_addr == inaddr_loopback then (false, support) else add_ipv4 support
add_address (af_inet6 is_loopback is_mc_global) support =
    if is_loopback
    then (false, support)
    else (if is_mc_global then add_ipv6 support else (false, support))
add_address other_family support = (false, support)

pub add_addresses : List (Option Address) → IpSupport → Option IpSupport
unfolding add_address
add_addresses [] support = some support
add_addresses (none ∷ addresses) support = none
add_addresses (some address ∷ addresses) support =
    let r = add_address address support in
    let rest = add_addresses addresses r.1 in if r.0 then some r.1 else rest

pub get_ip_version_support : List (Option Address) → Option IpSupport
unfolding add_addresses
get_ip_version_support addresses = add_addresses addresses ip_support_none

-- `is_ipv4` as `init_quic_client` sets it, from the value before; the version by default is 6.
pub choose_ip_version : IPv → List (Option Address) → Bool → Option Bool
unfolding get_ip_version_support
choose_ip_version ipv4 addresses is_ipv4 = some true
choose_ip_version ipv6 addresses is_ipv4 = some false
choose_ip_version ipv_system addresses is_ipv4 = do
  support ← get_ip_version_support addresses
  elim support [
    | ip_support_none ↦ some false
    | ip_support_both ↦ some false
    | ip_support_ipv4 ↦ some is_ipv4
    | ip_support_ipv6 ↦ some is_ipv4
  ]
