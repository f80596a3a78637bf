-- ===== src/Net/Whitelist/Access.antt =====
-- Whom the whitelist of src/net/clientwhitelist.rs lets in.
use coaly.Prelude.{
  ℕ, zero, suc, ◌≡◌, refl, ap, ◌∙◌, Bool, true, Option, List, [], ◌∷◌, ◌++◌, ◌||◌, ◌&&◌, take, map,
  arith,
}
use coaly.Prelude.Texts.{Text}
use coaly.Net.Whitelist.{
  SocketAddr, v4, v6, SocketAddrPattern, parts_match, as_u8, as_is, matches, ClientWhitelist,
  allows_id, allows_addr_and_appid, ok, from_str, add,
}

parts_match-low :
    (n : ℕ) (fs : List Bool) (ps os : List ℕ)
    → parts_match as_is fs ps os ≡ true
    → parts_match as_u8 fs ps (map as_u8 (take n os)) ≡ true
parts_match-low zero fs ps os h = short fs ps
  where
    short : (fs : List Bool) (ps : List ℕ) → parts_match as_u8 fs ps [] ≡ true
    short [] ps = refl
    short (f ∷ fs) [] = refl
    short (f ∷ fs) (p ∷ ps) = refl
parts_match-low (suc n) [] ps os h = refl
parts_match-low (suc n) (f ∷ fs) [] os h = refl
parts_match-low (suc n) (f ∷ fs) (p ∷ ps) [] h = refl
parts_match-low (suc n) (f ∷ fs) (p ∷ ps) (o ∷ os) h = ground (arith, parts_match-low n fs ps os)

-- A pattern that matches an IPv6 address also matches the IPv4 address that has the low bytes of
-- the first four segments as its octets, with the same port.
pub matches-families :
    (s : SocketAddrPattern) (segments : List ℕ) (port : ℕ)
    → matches s (v6 segments port) ≡ true
    → matches s (v4 (map as_u8 (take 4 segments)) port) ≡ true
unfolding matches
matches-families s segments port h =
    ground (arith, parts_match-low 4 s.segment_flags s.segment_patterns segments)

allows_addr_and_appid-append :
    (wl : ClientWhitelist) (s : SocketAddrPattern) (ids : List ℕ) (addr : SocketAddr) (app_id : ℕ)
    → allows_addr_and_appid (wl ++ (s, ids) ∷ []) addr app_id
      ≡ (allows_addr_and_appid wl addr app_id || (matches s addr && allows_id ids app_id))
unfolding allows_addr_and_appid
allows_addr_and_appid-append [] s ids addr app_id = grind arith
allows_addr_and_appid-append ((p, js) ∷ wl) s ids addr app_id =
    grind (arith, allows_addr_and_appid-append wl s ids addr app_id)

-- The clients that a whitelist lets in after a pattern was added are those that it let in before,
-- and those that the pattern matches with their application ID.
pub allows_addr_and_appid-add :
    (ip4_captures ip6_captures : Text → Option (List Text × Option Text)) (wl wl1 : ClientWhitelist)
    (pattern : Text) (s : SocketAddrPattern) (ids : List ℕ) (addr : SocketAddr) (app_id : ℕ)
    → from_str ip4_captures ip6_captures pattern ≡ ok s
    → add ip4_captures ip6_captures wl pattern ids ≡ ok wl1
    → allows_addr_and_appid wl1 addr app_id
      ≡ (allows_addr_and_appid wl addr app_id || (matches s addr && allows_id ids app_id))
unfolding add
allows_addr_and_appid-add ip4 ip6 wl wl1 pattern s ids addr app_id parsed h =
    let made : add ip4 ip6 wl pattern ids ≡ ok (wl ++ (s, ids) ∷ []) = rw (add, parsed) refl in
    let same : wl1 ≡ wl ++ (s, ids) ∷ [] = cc in
    ap (λ w. allows_addr_and_appid w addr app_id) same
    ∙ allows_addr_and_appid-append wl s ids addr app_id
