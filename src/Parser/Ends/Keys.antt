-- ===== src/Parser/Ends/Keys.antt =====
-- Keys and headers end.
use coaly.Prelude.{ℕ, zero, suc, [], ◌∷◌, ◌++◌, ◌+◌, ◌<◌, arith, true, List, length, ap}
use coaly.Prelude.Texts.{Text}
use coaly.Scanner.{TokenId}
use coaly.Parser.{TomlParser, key_ended, key_loop, key, header_key, table_header, rounds}
use coaly.Parser.Ends.{Inside, Within, Within-bind, Within-read}

module _ (text : List ℕ) where
  key_ended-Within :
      (start : ℕ) (sep last t : TokenId) (parts : List Text) (p : TomlParser)
      → Inside text start p
      → Within text start (key_ended sep last t parts p)
  unfolding key_ended
  key_ended-Within start sep last t parts p i = ground arith

  -- The fuel is more than the characters that are left.
  abbrev Fuelled : ℕ → Type 0
  Fuelled fuel =
      (start : ℕ) (sep last : TokenId) (parts : List Text) (p : TomlParser)
      → length text + 1 < start + fuel
      → Inside text start p
      → Within text start (key_loop fuel sep last parts p)

  key_loop-Within : (fuel : ℕ) → Fuelled fuel
  unfolding key_loop
  key_loop-Within zero start sep last parts p enough i = absurd (omega (arith, i.further, i.upto))
  key_loop-Within (suc fuel) start sep last parts p enough i =
      Within-read text start true p _ i
        (λ t p1 j.
          let again = λ (l : TokenId) (ps : List Text).
            key_loop-Within fuel (suc start) sep l ps p1 (omega arith) j in
          let ended = λ (s : TokenId). key_ended-Within (suc start) sep last s parts p1 j in
          ground (
            arith,
            again TokenId.dot parts,
            again TokenId.key (parts ++ p1.scanner.token_value ∷ []),
            ended TokenId.equal,
            ended TokenId.right_bracket,
            ended TokenId.double_right_bracket,
          ))
        (λ p1 j. tt)

  pub key-Within :
      (start : ℕ) (sep : TokenId) (p : TomlParser)
      → Inside text start p
      → Within text start (key sep p)
  unfolding key
  key-Within start sep p i =
      Within-bind text _ _
        (key_loop-Within (rounds p) start sep _ _ _ (omega (arith, ap length i.same))
          (record { same = i.same; further = i.further; upto = i.upto }))
        λ parts p1 j. j

  header_key-Within :
      (start : ℕ) (term : TokenId) (p : TomlParser)
      → Inside text start p
      → Within text start (header_key term p)
  unfolding header_key
  header_key-Within start term p i =
      Within-bind text _ _ (key-Within start term p i)
        λ k p1 j. Within-read text start true p1 _ j (λ t p2 l. ground arith) (λ p2 l. l)

  pub table_header-Within :
      (start : ℕ) (term : TokenId) (p : TomlParser)
      → Inside text start p
      → Within text start (table_header term p)
  unfolding table_header
  table_header-Within start term p i =
      Within-read text start true p _ i
        (λ t p1 j. ground (arith, header_key-Within (suc start) term p1 j)) (λ p1 j. tt)
