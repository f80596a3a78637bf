-- ===== src/Tests/Clients.antt =====
-- The whitelist of src/net/clientwhitelist.rs at concrete inputs.
use coaly.Prelude.{
  ◌≡◌, refl, true, false, none, some, Option, List, [], ◌∷◌, ◌||◌, ◌&&◌, replicate, if◌then◌else◌,
}
use coaly.Prelude.Texts.{codes, Text, same_text}
use coaly.Net.Whitelist.{
  SocketAddr, v4, SocketAddrPattern, matches, allows_id, allows_addr_and_appid, ok, from_str,
  from_str_radix, add,
}
use coaly.Net.Whitelist.Access.{matches-families, allows_addr_and_appid-add}

abbrev text : Text
text = codes "10.1.*.1:514"

-- The parts that the expression for IPv4 addresses captures in this text.
abbrev ip4 : Text → Option (List Text × Option Text)
ip4 t =
    if same_text t text
    then some ((codes "10") ∷ (b'1' ∷ []) ∷ (b'*' ∷ []) ∷ (b'1' ∷ []) ∷ [], some (codes "514"))
    else none

abbrev ip6 : Text → Option (List Text × Option Text)
ip6 t = none

abbrev ten : SocketAddrPattern
ten = record {
  segment_flags = true ∷ true ∷ false ∷ true ∷ replicate 4 false;
  segment_patterns = 10 ∷ 1 ∷ 0 ∷ 1 ∷ replicate 4 0;
  port = 514;
}

ten_parsed : from_str ip4 ip6 text ≡ ok ten
unfolding from_str from_str_radix
ten_parsed = refl

ten_added : add ip4 ip6 [] text (3 ∷ 4 ∷ []) ≡ ok ((ten, 3 ∷ 4 ∷ []) ∷ [])
unfolding add from_str from_str_radix
ten_added = refl

abbrev client : SocketAddr
client = v4 (10 ∷ 1 ∷ 77 ∷ 1 ∷ []) 514

allows_addr_and_appid-add_example :
    allows_addr_and_appid ((ten, 3 ∷ 4 ∷ []) ∷ []) client 4
    ≡ (allows_addr_and_appid [] client 4 || (matches ten client && allows_id (3 ∷ 4 ∷ []) 4))
allows_addr_and_appid-add_example =
    allows_addr_and_appid-add ip4 ip6 [] ((ten, 3 ∷ 4 ∷ []) ∷ []) text ten (3 ∷ 4 ∷ []) client 4
      ten_parsed ten_added

-- The IPv6 address dead:beef:1:2::, any port.
abbrev dead_beef : SocketAddrPattern
dead_beef = record {
  segment_flags = replicate 8 true;
  segment_patterns = 0xdead ∷ 0xbeef ∷ 1 ∷ 2 ∷ replicate 4 0;
  port = 0;
}

-- It also admits 173.239.1.2.
matches-families_example : matches dead_beef (v4 (0xad ∷ 0xef ∷ 1 ∷ 2 ∷ []) 4000) ≡ true
unfolding matches
matches-families_example =
    matches-families dead_beef (0xdead ∷ 0xbeef ∷ 1 ∷ 2 ∷ replicate 4 0) 4000 refl
