-- ===== src/NetworkAddresses/Support.antt =====
-- The support is a matter of the addresses, not of their order.
use thesis_share.Base.{
  ◌≡◌, refl, Bool, true, false, ◌&&◌, ◌||◌, not, inl, inr, Bool-cases, Option, some, List, [], ◌∷◌,
  ◌==◌, if◌then◌else◌, map,
}
use thesis_share.NetworkAddresses.{
  IpSupport, ip_support_none, ip_support_ipv4, ip_support_ipv6, ip_support_both, Address, af_inet,
  af_inet6, other_family, inaddr_loopback, add_address, add_ipv4, add_ipv6, add_addresses,
  get_ip_version_support,
}

-- Whether an address counts for a version.
abbrev pub counts_ipv4 : Address → Bool
counts_ipv4 (af_inet s_addr) = not (s_addr == inaddr_loopback)
counts_ipv4 (af_inet6 is_loopback is_mc_global) = false
counts_ipv4 other_family = false

abbrev pub counts_ipv6 : Address → Bool
counts_ipv6 (af_inet s_addr) = false
counts_ipv6 (af_inet6 is_loopback is_mc_global) = not is_loopback && is_mc_global
counts_ipv6 other_family = false

abbrev pub any : (Address → Bool) → List Address → Bool
any counts [] = false
any counts (a ∷ addresses) = counts a || any counts addresses

-- The support, given whether there are addresses of each version.
abbrev pub support_of : Bool → Bool → IpSupport
support_of false false = ip_support_none
support_of true false = ip_support_ipv4
support_of false true = ip_support_ipv6
support_of true true = ip_support_both

-- What the addresses of a list add to what has been found.
abbrev Adds : List Address → Type 0
Adds addresses =
    (has4 has6 : Bool)
    → add_addresses (map (λ a. some a) addresses) (support_of has4 has6)
      ≡ some (support_of (has4 || any counts_ipv4 addresses) (has6 || any counts_ipv6 addresses))

-- The loop after an address of a version has been added.
abbrev next : List Address → Bool × IpSupport → Option IpSupport
next addresses r = if r.0 then some r.1 else add_addresses (map (λ a. some a) addresses) r.1

next_ipv4 :
    (addresses : List Address) (has4 has6 : Bool)
    → Adds addresses
    → next addresses (add_ipv4 (support_of has4 has6))
      ≡ some (support_of (has4 || true) (has6 || any counts_ipv6 addresses))
unfolding add_ipv4
next_ipv4 addresses false false adds = adds true false
next_ipv4 addresses false true adds = refl
next_ipv4 addresses true false adds = adds true false
next_ipv4 addresses true true adds = adds true true

next_ipv6 :
    (addresses : List Address) (has4 has6 : Bool)
    → Adds addresses
    → next addresses (add_ipv6 (support_of has4 has6))
      ≡ some (support_of (has4 || any counts_ipv4 addresses) (has6 || true))
unfolding add_ipv6
next_ipv6 addresses false false adds = adds false true
next_ipv6 addresses false true adds = adds false true
next_ipv6 addresses true false adds = refl
next_ipv6 addresses true true adds = adds true true

add_addresses-support_of : (addresses : List Address) → Adds addresses
unfolding add_addresses add_address add_ipv4 add_ipv6
add_addresses-support_of [] true true = refl
add_addresses-support_of [] true false = refl
add_addresses-support_of [] false true = refl
add_addresses-support_of [] false false = refl
add_addresses-support_of (other_family ∷ addresses) has4 has6 =
    add_addresses-support_of addresses has4 has6
add_addresses-support_of (af_inet6 true mc ∷ addresses) has4 has6 =
    add_addresses-support_of addresses has4 has6
add_addresses-support_of (af_inet6 false false ∷ addresses) has4 has6 =
    add_addresses-support_of addresses has4 has6
add_addresses-support_of (af_inet6 false true ∷ addresses) has4 has6 =
    next_ipv6 addresses has4 has6 (add_addresses-support_of addresses)
add_addresses-support_of (af_inet s_addr ∷ addresses) has4 has6 =
    elim (Bool-cases (s_addr == inaddr_loopback)) [
      | inl local ↦ rw local (add_addresses-support_of addresses has4 has6)
      | inr remote ↦ rw remote (next_ipv4 addresses has4 has6 (add_addresses-support_of addresses))
    ]

-- For interfaces that all have an address, the support is that of version 4 exactly if an address of
-- version 4 counts, which is any but the one that equals INADDR_LOOPBACK, and that of version 6
-- exactly if an address of version 6 does, which is a global multicast address other than the
-- loopback, in whatever order the addresses stand.
pub get_ip_version_support-support_of :
    (addresses : List Address)
    → get_ip_version_support (map (λ a. some a) addresses)
      ≡ some (support_of (any counts_ipv4 addresses) (any counts_ipv6 addresses))
unfolding get_ip_version_support
get_ip_version_support-support_of addresses = add_addresses-support_of addresses false false
