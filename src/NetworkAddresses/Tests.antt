-- ===== src/NetworkAddresses/Tests.antt =====
-- A loopback address in network order, and a global address of version 6, which is not multicast.
use thesis_share.Base.{◌≡◌, some, [], ◌∷◌, false}
use thesis_share.NetworkAddresses.{ip_support_ipv4, af_inet, af_inet6, get_ip_version_support}
use thesis_share.NetworkAddresses.Support.{get_ip_version_support-support_of}

get_ip_version_support-support_of_example :
    get_ip_version_support (some (af_inet 16777343) ∷ some (af_inet6 false false) ∷ [])
    ≡ some ip_support_ipv4
get_ip_version_support-support_of_example =
    get_ip_version_support-support_of (af_inet 16777343 ∷ af_inet6 false false ∷ [])
