-- ===== src/NetGuard/Global.antt =====
-- Which addresses `is_non_global_ip` refuses, and what `resolve_connect_host` lets through
-- (src/net_security.rs).
use openpaw.Prelude.{
  ℕ, ◌+◌, ◌*◌, ◌<◌, ◌≡◌, ◌↔◌, refl, ap, ◌∙◌, Bool, false, ◌&&◌, ◌||◌, ◌==◌, some, List, [], ◌∷◌,
  arith, All, leb, Bool-cases, inl, inr,
}
use openpaw.NetGuard.{IpAddr, v4, is_non_global_ip, connect, select, resolve_connect_host}

-- The networks that are not global, from their first address to their last.
abbrev pub networks : List (ℕ × ℕ)
networks =
    (0, 16777215)
    ∷ (167772160, 184549375)
    ∷ (2130706432, 2147483647)
    ∷ (2851995648, 2852061183)
    ∷ (2886729728, 2887778303)
    ∷ (3221225984, 3221226239)
    ∷ (3232235520, 3232301055)
    ∷ (3325256704, 3325256959)
    ∷ (3405803776, 3405804031)
    ∷ (4294967295, 4294967295)
    ∷ []

-- The address as a number.
abbrev pub number : ℕ → ℕ → ℕ → ℕ → ℕ
number a b c d = ((a * 256 + b) * 256 + c) * 256 + d

-- A number is in a network.
abbrev pub within : ℕ → ℕ → ℕ → Bool
within low high n = leb low n && leb n high

abbrev pub lies_in : ℕ → List (ℕ × ℕ) → Bool
lies_in n [] = false
lies_in n ((low, high) ∷ rest) = within low high n || lies_in n rest

module _ (a b c d : ℕ) (ha : a < 256) (hb : b < 256) (hc : c < 256) (hd : d < 256) where
  this : within 0 16777215 (number a b c d) ≡ (a == 0)
  this = ground arith

  ten : within 167772160 184549375 (number a b c d) ≡ (a == 10)
  ten = ground arith

  loopback : within 2130706432 2147483647 (number a b c d) ≡ (a == 127)
  loopback = ground arith

  link_local : within 2851995648 2852061183 (number a b c d) ≡ (a == 169 && b == 254)
  link_local = ground arith

  private_b : within 2886729728 2887778303 (number a b c d) ≡ (a == 172 && leb 16 b && leb b 31)
  private_b = ground arith

  docs_a : within 3221225984 3221226239 (number a b c d) ≡ (a == 192 && b == 0 && c == 2)
  docs_a = ground arith

  private_c : within 3232235520 3232301055 (number a b c d) ≡ (a == 192 && b == 168)
  private_c = ground arith

  docs_b : within 3325256704 3325256959 (number a b c d) ≡ (a == 198 && b == 51 && c == 100)
  docs_b = ground arith

  docs_c : within 3405803776 3405804031 (number a b c d) ≡ (a == 203 && b == 0 && c == 113)
  docs_c = ground arith

  broadcast :
      within 4294967295 4294967295 (number a b c d) ≡ (a == 255 && b == 255 && c == 255 && d == 255)
  broadcast = ground arith

-- The order of the tests does not matter.
reordered :
    (t0 t1 t2 t3 t4 t5 t6 t7 t8 t9 : Bool)
    → (t2 || (t1 || t4 || t6) || t3 || t9 || (t5 || t7 || t8) || t0)
      ≡ (t0 || (t1 || (t2 || (t3 || (t4 || (t5 || (t6 || (t7 || (t8 || (t9 || false))))))))))
reordered t0 t1 t2 t3 t4 t5 t6 t7 t8 t9 = ground arith

-- An address of version 4 is refused exactly if it lies in one of ten networks: 0.0.0.0/8, 10/8,
-- 127/8, 169.254/16, 172.16/12, 192.0.2/24, 192.168/16, 198.51.100/24, 203.0.113/24 and
-- 255.255.255.255.
pub is_non_global_ip-networks :
    (a b c d : ℕ)
    → a < 256
    → b < 256
    → c < 256
    → d < 256
    → is_non_global_ip (v4 a b c d) ≡ lies_in (number a b c d) networks
unfolding is_non_global_ip
is_non_global_ip-networks a b c d ha hb hc hd =
    rw
      (
        this a b c d ha hb hc hd,
        ten a b c d ha hb hc hd,
        loopback a b c d ha hb hc hd,
        link_local a b c d ha hb hc hd,
        private_b a b c d ha hb hc hd,
        docs_a a b c d ha hb hc hd,
        private_c a b c d ha hb hc hd,
        docs_b a b c d ha hb hc hd,
        docs_c a b c d ha hb hc hd,
        broadcast a b c d ha hb hc hd,
      )
      (reordered (a == 0) (a == 10) (a == 127) (a == 169 && b == 254)
        (a == 172 && leb 16 b && leb b 31) (a == 192 && b == 0 && c == 2) (a == 192 && b == 168)
        (a == 198 && b == 51 && c == 100) (a == 203 && b == 0 && c == 113)
        (a == 255 && b == 255 && c == 255 && d == 255))

-- The first of some addresses.
abbrev pub IsFirst : IpAddr → List IpAddr → Type 0
IsFirst ip [] = ⊥
IsFirst ip (first ∷ rest) = first ≡ ip

select-connect :
    (selected : IpAddr) (ips : List IpAddr) (ip : IpAddr)
    → select (some selected) ips ≡ connect ip
    → (selected ≡ ip) × All (λ x. is_non_global_ip x ≡ false) ips
select-connect selected [] ip h = ground arith
select-connect selected (x ∷ ips) ip h = ground (arith, select-connect selected ips ip)

select-global :
    (selected : IpAddr) (ips : List IpAddr)
    → All (λ x. is_non_global_ip x ≡ false) ips
    → select (some selected) ips ≡ connect selected
select-global selected [] h = refl
select-global selected (x ∷ ips) h = rw h.0 (select-global selected ips h.1)

-- `resolve_connect_host` returns an address exactly when the host has one and all its addresses are
-- global; it is then the first of them. One address that is not global blocks the host.
pub resolve_connect_host-connect :
    (ips : List IpAddr) (ip : IpAddr)
    → (resolve_connect_host (some ips) ≡ connect ip)
      ↔ (IsFirst ip ips × All (λ x. is_non_global_ip x ≡ false) ips)
unfolding resolve_connect_host
resolve_connect_host-connect [] ip = ((λ h. cc), λ h. absurd h.0)
resolve_connect_host-connect (x ∷ ips) ip = elim (Bool-cases (is_non_global_ip x)) [
  | inl y ↦ rw y ((λ h. cc), λ h. cc)
  | inr n ↦ rw n (
    (λ h. let (same, global) = select-connect x ips ip h in (same, (refl, global))),
    λ h. select-global x ips h.1.1 ∙ ap connect h.0,
  )
]
