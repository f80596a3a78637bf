-- ===== src/Net/Utf8.antt =====
-- What `from_utf8` of the standard library accepts: the well-formed byte sequences of the Unicode
-- standard.
use coaly.Prelude.{ℕ, ◌-◌, Bool, List, [], ◌∷◌, ltb, ◌==◌, in_range, if◌then◌else◌}

-- How many bytes follow, and the range of the next one.
pub record Expected : Type 0 where
  pub count : ℕ
  pub low : ℕ
  pub high : ℕ

abbrev pub at_start : Expected
at_start = record { count = 0; low = 0; high = 0 }

-- A first byte outside of all ranges expects an impossible byte.
abbrev lead : ℕ → Expected
lead b =
    if ltb b 128
    then at_start
    else if in_range 0xc2 0xdf b
    then record { count = 1; low = 0x80; high = 0xbf }
    else if b == 0xe0
    then record { count = 2; low = 0xa0; high = 0xbf }
    else if b == 0xed
    then record { count = 2; low = 0x80; high = 0x9f }
    else if in_range 0xe1 0xef b
    then record { count = 2; low = 0x80; high = 0xbf }
    else if b == 0xf0
    then record { count = 3; low = 0x90; high = 0xbf }
    else if in_range 0xf1 0xf3 b
    then record { count = 3; low = 0x80; high = 0xbf }
    else if b == 0xf4
    then record { count = 3; low = 0x80; high = 0x8f }
    else record { count = 1; low = 1; high = 0 }

abbrev continued : Expected → ℕ → Expected
continued e b =
    if in_range e.low e.high b
    then record { count = e.count - 1; low = 0x80; high = 0xbf }
    else record { count = 1; low = 1; high = 0 }

unfoldable pub utf8_from : Expected → List ℕ → Bool
utf8_from e [] = e.count == 0
utf8_from e (b ∷ bs) = utf8_from (if e.count == 0 then lead b else continued e b) bs

unfoldable pub is_utf8 : List ℕ → Bool
unfolding utf8_from
is_utf8 bytes = utf8_from at_start bytes
