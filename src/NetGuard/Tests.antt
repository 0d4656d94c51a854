-- ===== src/NetGuard/Tests.antt =====
-- Runs of the network's guard (src/net_security.rs), and its theorems at inputs.
use openpaw.Prelude.{◌≡◌, refl, true, false, Option, none, some, [], ◌∷◌, Text, codes}
use openpaw.Scan.{split_once, strip_prefix}
use openpaw.NetGuard.{
  split_at, after_last, extract_host, host_matches_allowlist, IpAddr, v6, is_non_global_ip,
  unscoped, is_local_host, resolve_connect_host,
}
use openpaw.NetGuard.Allowed.{AnyCovers, host_matches_allowlist-Covers}

program : Unit {0}
unfolding split_at after_last extract_host host_matches_allowlist is_non_global_ip unscoped
    is_local_host resolve_connect_host split_once strip_prefix
program = tt

abbrev parse_none : Text → Option IpAddr
parse_none s = none

hosts :
    (extract_host (codes "https://user@api.example.com:8080/v1?q") ≡ some (codes "api.example.com"))
    × (extract_host (codes "http://[::1]:80/") ≡ some (codes "[::1]"))
    × (extract_host (codes "ftp://example.com/") ≡ none)
    × (extract_host (codes "http://[::1/") ≡ none)
unfolding program
hosts = (refl, refl, refl, refl)

-- A query without a path before it is taken for the name of a user.
query_as_user : extract_host (codes "http://evil.com?x@good.com/") ≡ some (codes "good.com")
unfolding program
query_as_user = refl

-- An address of version 4 in the form of version 6 counts as global.
mapped_loopback : is_non_global_ip (v6 0 0 0 0 0 65535 32512 1) ≡ false
unfolding program
mapped_loopback = refl

local_names :
    (is_local_host parse_none (codes "app.localhost") ≡ true)
    × (is_local_host parse_none (codes "[]") ≡ true)
    × (is_local_host parse_none (codes "example.com") ≡ false)
unfolding program
local_names = (refl, refl, refl)

allowed_hosts :
    (host_matches_allowlist (codes "api.example.com") (codes "*.example.com" ∷ []) ≡ some true)
    × (host_matches_allowlist (codes "badexample.com") (codes "example.com" ∷ []) ≡ some false)
    × (host_matches_allowlist (195 ∷ 169 ∷ []) (codes "x" ∷ []) ≡ none)
unfolding program
allowed_hosts = (refl, refl, refl)

host_matches_allowlist-Covers_example :
    AnyCovers (codes "api.example.com") (codes "*.example.com" ∷ [])
unfolding program
host_matches_allowlist-Covers_example =
    host_matches_allowlist-Covers (codes "api.example.com") (codes "*.example.com") [] refl
