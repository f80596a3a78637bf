-- ===== src/Net/Whitelist.antt =====
-- src/net/clientwhitelist.rs: which clients may access the server. The regular expressions for
-- address patterns are parameters: they give the captured parts, and the captured port.
pub mod Access
use coaly.Prelude.{
  ℕ, ◌+◌, ◌-◌, ◌*◌, ◌%◌, ◌^◌, Bool, true, false, Option, none, some, List, [], ◌∷◌, ◌++◌, ltb, ◌==◌,
  ◌||◌, ◌&&◌, not, in_range, replicate, map, if◌then◌else◌,
}
use coaly.Prelude.Texts.{codes, Text, same_text}

pub data SocketAddr : Type 0 where
  v4 : List ℕ → ℕ → SocketAddr
  v6 : List ℕ → ℕ → SocketAddr

pub record SocketAddrPattern : Type 0 where
  pub segment_flags : List Bool
  pub segment_patterns : List ℕ
  pub port : ℕ

-- The loop over the parts of an address: those without a flag are skipped.
abbrev pub parts_match : (ℕ → ℕ) → List Bool → List ℕ → List ℕ → Bool
parts_match cast (f ∷ fs) (p ∷ ps) (o ∷ os) =
    let rest = parts_match cast fs ps os in if f && not (o == cast p) then false else rest
parts_match cast fs ps os = true

-- `as u8`
abbrev pub as_u8 : ℕ → ℕ
as_u8 n = n % 256

abbrev pub as_is : ℕ → ℕ
as_is n = n

unfoldable pub matches : SocketAddrPattern → SocketAddr → Bool
matches s (v4 octets port) =
    parts_match as_u8 s.segment_flags s.segment_patterns octets
    && ((s.port == 0) || (s.port == port))
matches s (v6 segments port) =
    parts_match as_is s.segment_flags s.segment_patterns segments
    && ((s.port == 0) || (s.port == port))

-- The whitelist: patterns with application IDs.
abbrev pub ClientWhitelist : Type 0
ClientWhitelist = List (SocketAddrPattern × List ℕ)

abbrev pub allows_id : List ℕ → ℕ → Bool
allows_id [] app_id = false
allows_id (w ∷ ws) app_id = if (w == 0) || (w == app_id) then true else allows_id ws app_id

unfoldable pub allows_addr_and_appid : ClientWhitelist → SocketAddr → ℕ → Bool
unfolding matches
allows_addr_and_appid [] addr app_id = false
allows_addr_and_appid ((addr_desc, wl_app_ids) ∷ wl) addr app_id =
    let rest = allows_addr_and_appid wl addr app_id in
    if not (matches addr_desc addr)
    then rest
    else if allows_id wl_app_ids app_id
    then true
    else rest

unfoldable pub allows_addr : ClientWhitelist → SocketAddr → Bool
unfolding matches
allows_addr [] addr = false
allows_addr ((addr_desc, wl_app_ids) ∷ wl) addr =
    if matches addr_desc addr then true else allows_addr wl addr

pub data PatternError : Type 0 where
  ip4_octet_too_large : Text → PatternError
  ip_port_too_large : Text → PatternError
  invalid_addr_pattern : Text → PatternError

pub data Parsed {ℓ} (A : Type ℓ) : Type ℓ where
  ok : A → Parsed A
  err : PatternError → Parsed A
  panic : Parsed A

infixl 5 ◌>>=◌
abbrev pub ◌>>=◌ {ℓ κ} : {A : Type ℓ} {B : Type κ} → Parsed A → (A → Parsed B) → Parsed B
ok a >>= f = f a
err e >>= f = err e
panic >>= f = panic

abbrev digit_value : ℕ → Option ℕ
digit_value c =
    if in_range b'0' b'9' c
    then some (c - b'0')
    else if in_range b'A' b'F' c
    then some (c - 55)
    else if in_range b'a' b'f' c
    then some (c - 87)
    else none

-- The digits of `from_str_radix`, for a type with values below `limit`.
abbrev digits_value : ℕ → ℕ → ℕ → Text → Option ℕ
digits_value radix limit value [] = some value
digits_value radix limit value (c ∷ cs) = elim (digit_value c) [
  | none ↦ none
  | some d ↦
      let rest = digits_value radix limit (value * radix + d) cs in
      if ltb d radix && ltb (value * radix + d) limit then rest else none
]

-- `from_str_radix`
unfoldable pub from_str_radix : ℕ → ℕ → Text → Option ℕ
from_str_radix radix limit [] = none
from_str_radix radix limit (c ∷ []) = digits_value radix limit 0 (c ∷ [])
from_str_radix radix limit (c ∷ d ∷ cs) =
    if c == b'+'
    then digits_value radix limit 0 (d ∷ cs)
    else digits_value radix limit 0 (c ∷ d ∷ cs)

abbrev pub asterisk : Text
asterisk = b'*' ∷ []

-- A part of an IPv4 address: whether it is fixed, and its value.
abbrev octet_part : Text → Parsed (Bool × ℕ)
octet_part octet =
    if same_text octet asterisk then ok (false, 0) else elim (from_str_radix 10 256 octet) [
      | none ↦ err (ip4_octet_too_large octet)
      | some num ↦ ok (true, num)
    ]

-- A part of an IPv6 address.
abbrev segment_part : Text → Parsed (Bool × ℕ)
segment_part [] = ok (false, 0)
segment_part (c ∷ cs) =
    if same_text (c ∷ cs) asterisk
    then ok (false, 0)
    else elim (from_str_radix 16 (2 ^ 16) (c ∷ cs)) [ none ↦ panic | some num ↦ ok (true, num) ]

abbrev pub parts_of : (Text → Parsed (Bool × ℕ)) → List Text → Parsed (List Bool × List ℕ)
parts_of part [] = ok ([], [])
parts_of part (t ∷ ts) = do
  first ← part t
  rest ← parts_of part ts
  ok (first.0 ∷ rest.0, first.1 ∷ rest.1)

abbrev port_part : Option Text → Parsed ℕ
port_part none = ok 0
port_part (some digits) =
    if same_text digits asterisk then ok 0 else elim (from_str_radix 10 (2 ^ 16) digits) [
      | none ↦ err (ip_port_too_large digits)
      | some num ↦ ok num
    ]

-- For IPv6, an empty port is any port, too.
abbrev ip6_port_part : Option Text → Parsed ℕ
ip6_port_part (some []) = ok 0
ip6_port_part port = port_part port

-- "*", "*:*", "*:0", "[*]", "[*]:*", "[*]:0"
abbrev is_any : Text → Bool
is_any s =
    let bracketed = codes "[*]" in
    same_text s asterisk
    || same_text s (codes "*:*")
    || same_text s (codes "*:0")
    || same_text s bracketed
    || same_text s (bracketed ++ codes ":*")
    || same_text s (bracketed ++ codes ":0")

abbrev pub pattern_of : List Bool → List ℕ → ℕ → SocketAddrPattern
pattern_of flags values port = record {
  segment_flags = flags;
  segment_patterns = values;
  port = port;
}

module _ (ip4_captures ip6_captures : Text → Option (List Text × Option Text)) where
  abbrev from_ip6 : Text → Parsed SocketAddrPattern
  from_ip6 s = elim (ip6_captures s) [
    | none ↦ err (invalid_addr_pattern s)
    | some caps ↦ (do
      parts ← parts_of segment_part caps.0
      port ← ip6_port_part caps.1
      ok (pattern_of parts.0 parts.1 port))
  ]

  -- The arrays have eight elements, of which an IPv4 pattern sets the first four.
  unfoldable pub from_str : Text → Parsed SocketAddrPattern
  unfolding from_str_radix
  from_str s =
      if is_any s
      then ok (pattern_of (replicate 8 false) (replicate 8 0) 0)
      else elim (ip4_captures s) [
        | none ↦ from_ip6 s
        | some caps ↦ (do
          parts ← parts_of octet_part caps.0
          port ← port_part caps.1
          ok (pattern_of (parts.0 ++ replicate 4 false) (parts.1 ++ replicate 4 0) port))
      ]

  -- A pattern with an error is skipped; the result is the whitelist with the descriptor behind.
  unfoldable pub add : ClientWhitelist → Text → List ℕ → Parsed ClientWhitelist
  unfolding from_str
  add wl addr_pattern app_ids = elim (from_str addr_pattern) [
    | ok addr_desc ↦ ok (wl ++ (addr_desc, app_ids) ∷ [])
    | err e ↦ ok wl
    | panic ↦ panic
  ]

  abbrev add_all : ClientWhitelist → List (Text × List ℕ) → Parsed ClientWhitelist
  add_all wl [] = ok wl
  add_all wl ((addr, app_ids) ∷ descs) = do wl1 ← add wl addr app_ids; add_all wl1 descs

  unfoldable pub from_ip_and_app_ids : List (Text × List ℕ) → Parsed ClientWhitelist
  unfolding add
  from_ip_and_app_ids desc_list = add_all [] desc_list

  unfoldable pub from_ip : List Text → Parsed ClientWhitelist
  unfolding add
  from_ip desc_list = add_all [] (map (λ desc. (desc, [])) desc_list)
