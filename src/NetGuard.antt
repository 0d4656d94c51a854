-- ===== src/NetGuard.antt =====
-- Which hosts the program may connect to (src/net_security.rs). Texts are bytes of UTF-8 here, since
-- the source compares and slices hosts by bytes. Outside are the parser of addresses of the standard
-- library, its printer, and the resolver of names.
pub mod Global
pub mod Allowed
mod Tests
use openpaw.Prelude.{
  ℕ, ◌+◌, ◌-◌, ◌*◌, ◌/◌, Bool, true, false, not, ◌&&◌, ◌||◌, Option, none, some, List, [], ◌∷◌,
  ◌++◌, Text, codes, text_eq, if◌then◌else◌, ltb, leb, ◌==◌, length, any, drop,
}
use openpaw.Scan.{split_once, starts_with, ends_with, strip_prefix}

-- The parts before and after the first place of a text.
abbrev extend : ℕ → Option (Text × Text) → Option (Text × Text)
extend c none = none
extend c (some (before, after)) = some (c ∷ before, after)

unfoldable pub split_at : Text → Text → Option (Text × Text)
split_at mark [] = elim (strip_prefix mark []) [ none ↦ none | some after ↦ some ([], after) ]
split_at mark (c ∷ s) =
    let rest = split_at mark s in
    elim (strip_prefix mark (c ∷ s)) [ none ↦ extend c rest | some after ↦ some ([], after) ]

abbrev before_or : Option (Text × Text) → Text → Text
before_or none s = s
before_or (some (before, after)) s = before

-- What follows the last `@`, or everything.
unfoldable pub after_last : ℕ → Text → Text
after_last sep [] = []
after_last sep (c ∷ s) =
    let rest = after_last sep s in
    if any (λ d. d == sep) s then rest else if c == sep then s else c ∷ s

-- The host of a host with a port.
abbrev strip_literal : Text → Option (Text × Text) → Option Text
strip_literal host_port none = none
strip_literal host_port (some (before, after)) =
    if starts_with (codes ":") after then some (before ++ b']' ∷ []) else some host_port

abbrev pub strip_port : Text → Option Text
strip_port host_port =
    if starts_with (codes "[") host_port
    then strip_literal host_port (split_once b']' host_port)
    else some (before_or (split_once b':' host_port) host_port)

abbrev pub non_empty : Option Text → Option Text
non_empty none = none
non_empty (some []) = none
non_empty (some (c ∷ s)) = some (c ∷ s)

abbrev host_of : Option (Text × Text) → Option Text
host_of none = none
host_of (some (scheme, rest)) =
    if text_eq scheme (codes "http") || text_eq scheme (codes "https")
    then non_empty (strip_port (after_last b'@' (before_or (split_once b'/' rest) rest)))
    else none

unfoldable pub extract_host : Text → Option Text
unfolding split_at after_last
extract_host url = host_of (split_at (codes "://") url)

abbrev pub byte_at : Text → ℕ → ℕ
byte_at s i = elim (drop i s) [ [] ↦ 0 | c ∷ rest ↦ c ]

-- `is_char_boundary`: no byte of the form 10xxxxxx stands there.
abbrev pub is_boundary : Text → ℕ → Bool
is_boundary s i = ltb (byte_at s i) 128 || leb 192 (byte_at s i)

-- The test of "*.domain".
abbrev pub matches_wildcard : Text → Option Text → Bool
matches_wildcard host none = false
matches_wildcard host (some domain) =
    let prefix_len = length host - length domain in
    ends_with domain host && ltb 0 prefix_len && byte_at host (prefix_len - 1) == b'.'

-- The test of a subdomain; a slice inside a character panics, which is `none`.
abbrev pub matches_subdomain : Text → Text → Option Bool
matches_subdomain host pattern =
    let offset = length host - length pattern in
    if ltb (length pattern) (length host)
    then (if is_boundary host offset
        then some (text_eq (drop offset host) pattern && byte_at host (offset - 1) == b'.')
        else none)
    else some false

abbrev pub matches_pattern : Text → Text → Option Bool
matches_pattern host pattern =
    if text_eq host pattern || matches_wildcard host (strip_prefix (codes "*.") pattern)
    then some true
    else matches_subdomain host pattern

abbrev pub or_rest : Option Bool → Option Bool → Option Bool
or_rest none rest = none
or_rest (some true) rest = some true
or_rest (some false) rest = rest

abbrev pub matches_any : Text → List Text → Option Bool
matches_any host [] = some false
matches_any host (pattern ∷ rest) = or_rest (matches_pattern host pattern) (matches_any host rest)

unfoldable pub host_matches_allowlist : Text → List Text → Option Bool
host_matches_allowlist host allowed = elim allowed [
  | [] ↦ some true
  | pattern ∷ rest ↦ matches_any host (pattern ∷ rest)
]

-- The octets of an address of version 4, the segments of one of version 6.
pub data IpAddr : Type 0 where
  v4 : (a b c d : ℕ) → IpAddr
  v6 : (s0 s1 s2 s3 s4 s5 s6 s7 : ℕ) → IpAddr

-- The seven low segments are as given and the others 0.
abbrev pub is_low : ℕ → ℕ → ℕ → ℕ → ℕ → ℕ → ℕ → ℕ → ℕ → Bool
is_low last s0 s1 s2 s3 s4 s5 s6 s7 =
    s0 == 0 && s1 == 0 && s2 == 0 && s3 == 0 && s4 == 0 && s5 == 0 && s6 == 0 && s7 == last

-- The methods `is_loopback`, `is_private`, `is_link_local`, `is_broadcast`, `is_documentation` and
-- `is_unspecified` of the standard library, written out. A mask on a segment keeps its high bits.
unfoldable pub is_non_global_ip : IpAddr → Bool
is_non_global_ip (v4 a b c d) =
    a == 127
    || (a == 10 || (a == 172 && leb 16 b && leb b 31) || (a == 192 && b == 168))
    || (a == 169 && b == 254)
    || (a == 255 && b == 255 && c == 255 && d == 255)
    || ((a == 192 && b == 0 && c == 2)
        || (a == 198 && b == 51 && c == 100)
        || (a == 203 && b == 0 && c == 113))
    || a == 0
is_non_global_ip (v6 s0 s1 s2 s3 s4 s5 s6 s7) =
    is_low 1 s0 s1 s2 s3 s4 s5 s6 s7
    || s0 / 512 * 512 == 64512
    || s0 / 64 * 64 == 65152
    || is_low 0 s0 s1 s2 s3 s4 s5 s6 s7

abbrev drop_end : Text → Text
drop_end [] = []
drop_end (c ∷ []) = []
drop_end (c ∷ d ∷ s) = c ∷ drop_end (d ∷ s)

-- Without the brackets of an address and without a zone.
unfoldable pub unscoped : Text → Text
unscoped host =
    let bare =
      if starts_with (codes "[") host && ends_with (codes "]") host
      then drop_end (drop 1 host)
      else host in
    before_or (split_once b'%' bare) bare

unfoldable pub is_local_host : (Text → Option IpAddr) → Text → Bool
unfolding unscoped
is_local_host parse_ip host =
    let name = unscoped host in
    text_eq name []
    || text_eq name (codes "localhost")
    || ends_with (codes ".localhost") name
    || ends_with (codes ".local") name
    || elim (parse_ip name) [ none ↦ false | some ip ↦ is_non_global_ip ip ]

-- The result of `resolve_connect_host`: an address, or an error with the address that is blocked or
-- without one.
pub data Resolved : Type 0 where
  connect : IpAddr → Resolved
  blocked : IpAddr → Resolved
  failed : Resolved

-- The loop over the addresses, with the one that is selected.
abbrev pub select : Option IpAddr → List IpAddr → Resolved
select none [] = failed
select (some ip) [] = connect ip
select selected (ip ∷ ips) =
    let rest = select (elim selected [ none ↦ some ip | some first ↦ some first ]) ips in
    if is_non_global_ip ip then blocked ip else rest

-- `addrs` are the addresses of the host, `none` if the resolution fails.
unfoldable pub resolve_connect_host : Option (List IpAddr) → Resolved
resolve_connect_host none = failed
resolve_connect_host (some addrs) = select none addrs
