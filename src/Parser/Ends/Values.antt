-- ===== src/Parser/Ends/Values.antt =====
-- Values and documents end.
use coaly.Prelude.{ℕ, zero, suc, ◌+◌, ◌<◌, ◌≢◌, refl, arith, Bool, true, false, none, List, length}
use coaly.Prelude.Texts.{Text}
use coaly.Scanner.{TokenId}
use coaly.Document.{TomlValueItem, new_table, new_array}
use coaly.Document.Editing.{TomlDocument, new_document, insert_item}
use coaly.Document
use coaly.Scanner.Loop.{new_scanner}
use coaly.Parser.{TomlParser, Parsed, out_of_fuel, bind, new_parser, key, token_position, Parser}
use coaly.Parser.Conversions.{ChronoType}
use coaly.Parser.Values.{
  inserted, enhanced, push, token_value, value, Loop, array, inline_table, array_loop, inline_loop,
  key_value_pair, parse_turn, parse_loop, parse,
}
use coaly.Parser.Ends.{Inside, Within, Within-fuel, Within-bind, Within-read}
use coaly.Parser.Ends.Keys.{key-Within, table_header-Within}

module _ (parse_from_str : ChronoType → Text → Text → Bool) (text : List ℕ) where
  token_value-Within :
      (start : ℕ) (p : TomlParser)
      → Inside text start p
      → Within text start (token_value parse_from_str p)
  unfolding token_value
  token_value-Within start p i = ground arith

  inserted-Within :
      (start : ℕ) (r : Document.Result TomlValueItem) (p : TomlParser)
      → Inside text start p
      → Within text start (inserted r p)
  inserted-Within start r p i = ground arith

  enhanced-Within :
      (start : ℕ) (r : Document.Result TomlDocument) (p : TomlParser)
      → Inside text start p
      → Within text start (enhanced r p)
  enhanced-Within start r p i = ground arith

  array-Within :
      (start : ℕ) (loop : Loop) (p : TomlParser)
      → Within text start (
          loop
            (token_position p.scanner)
            TokenId.line_break
            (new_array (token_position p.scanner).0 false)
            p)
      → Within text start (array loop p)
  unfolding array
  array-Within start loop p h = h

  inline_table-Within :
      (start : ℕ) (loop : Loop) (p : TomlParser)
      → Within text start (
          loop
            (token_position p.scanner)
            TokenId.line_break
            (new_table (token_position p.scanner).0 true)
            p)
      → Within text start (inline_table loop p)
  unfolding inline_table
  inline_table-Within start loop p h = h

  mutual
    unfolding value array_loop inline_loop

    value-Within :
        (fuel start : ℕ) (p : TomlParser)
        → length text + 1 < start + fuel
        → Inside text start p
        → Within text start (value parse_from_str fuel p)
    value-Within zero start p enough i = absurd (omega (arith, i.further, i.upto))
    value-Within (suc fuel) start p enough i =
        Within-read text start false p _ i
          (λ t p1 j. ground (
            arith,
            token_value-Within (suc start) p1 j,
            array-Within (suc start) (array_loop parse_from_str fuel) p1
                (array_loop-Within fuel (suc start) _ _ _ p1 (omega arith) j),
            inline_table-Within (suc start) (inline_loop parse_from_str fuel) p1
                (inline_loop-Within fuel (suc start) _ _ _ p1 (omega arith) j),
          ))
          (λ p1 j. tt)

    array_loop-Within :
        (fuel start : ℕ) (at : ℕ × ℕ) (last : TokenId) (item : TomlValueItem) (p : TomlParser)
        → length text + 1 < start + fuel
        → Inside text start p
        → Within text start (array_loop parse_from_str fuel at last item p)
    array_loop-Within zero start at last item p enough i = absurd (omega (arith, i.further, i.upto))
    array_loop-Within (suc fuel) start at last item p enough i =
        Within-read text start false p _ i
          (λ t p1 j.
            let on =
              λ (l : TokenId) (v : TomlValueItem) (q : TomlParser) (k : Inside text (suc start) q).
                array_loop-Within fuel (suc start) at l v q (omega arith) k in
            let behind = λ (l : TokenId) (r : Parsed TomlValueItem) (h : Within text (suc start) r).
              Within-bind text r (λ val. array_loop parse_from_str fuel at l (push val item)) h
                (λ val q k. on l (push val item) q k) in
            ground (
              arith,
              on TokenId.comma item p1 j,
              on last item p1 j,
              behind TokenId.value (token_value parse_from_str p1)
                  (token_value-Within (suc start) p1 j),
              behind TokenId.left_bracket (array (array_loop parse_from_str fuel) p1) (
                  array-Within (suc start) (array_loop parse_from_str fuel) p1
                    (array_loop-Within fuel (suc start) _ _ _ p1 (omega arith) j)),
              behind TokenId.left_brace (inline_table (inline_loop parse_from_str fuel) p1) (
                  inline_table-Within (suc start) (inline_loop parse_from_str fuel) p1
                    (inline_loop-Within fuel (suc start) _ _ _ p1 (omega arith) j)),
            ))
          (λ p1 j. tt)

    inline_loop-Within :
        (fuel start : ℕ) (at : ℕ × ℕ) (last : TokenId) (item : TomlValueItem) (p : TomlParser)
        → length text + 1 < start + fuel
        → Inside text start p
        → Within text start (inline_loop parse_from_str fuel at last item p)
    inline_loop-Within zero start at last item p enough i =
        absurd (omega (arith, i.further, i.upto))
    inline_loop-Within (suc fuel) start at last item p enough i =
        Within-read text start true p _ i
          (λ t p1 j.
            let on =
              λ (l : TokenId) (v : TomlValueItem) (q : TomlParser) (k : Inside text (suc start) q).
                inline_loop-Within fuel (suc start) at l v q (omega arith) k in
            ground (
              arith,
              on TokenId.comma item p1 j,
              Within-bind text (key TokenId.equal p1)
                  (λ k p2. bind (value parse_from_str fuel p2) λ v p3.
                    bind (inserted (insert_item item none k v) p3)
                      λ node. inline_loop parse_from_str fuel at TokenId.key node)
                  (key-Within text (suc start) TokenId.equal p1 j)
                  (λ k p2 l.
                    Within-bind text _ _ (value-Within fuel (suc start) p2 (omega arith) l)
                      λ v p3 m.
                        Within-bind text _ _ (inserted-Within (suc start) _ p3 m)
                          λ node p4 n. on TokenId.key node p4 n),
            ))
          (λ p1 j. tt)

  key_value_pair-Within :
      (fuel start : ℕ) (p : TomlParser)
      → length text + 1 < start + fuel
      → Inside text start p
      → Within text start (key_value_pair parse_from_str fuel p)
  unfolding key_value_pair
  key_value_pair-Within fuel start p enough i =
      Within-bind text _ _ (key-Within text start TokenId.equal p i) λ k p1 j.
        Within-bind text _ _ (value-Within fuel start p1 enough j)
          λ v p2 l. Within-read text start true p2 _ l (λ t p3 m. ground arith) (λ p3 m. tt)

  module _ (fuel start : ℕ) (again : TomlDocument → Parser TomlDocument)
      (goes : (d : TomlDocument) (p : TomlParser)
        → Inside text start p
        → Within text start (again d p)) where
    on_with :
        (r : Document.Result TomlDocument) (p : TomlParser)
        → Inside text start p
        → Within text start (bind (enhanced r p) again)
    on_with r p i = Within-bind text _ again (enhanced-Within start r p i) goes

    parse_turn-Within :
        (d : TomlDocument) (t : TokenId) (p : TomlParser)
        → length text + 1 < start + fuel
        → Inside text start p
        → Within text start (parse_turn parse_from_str fuel again d t p)
    unfolding parse_turn
    parse_turn-Within d TokenId.left_bracket p enough i =
        Within-bind text _ _ (table_header-Within text start TokenId.right_bracket p i)
          λ k p1 j. on_with _ _ (record { same = j.same; further = j.further; upto = j.upto })
    parse_turn-Within d TokenId.double_left_bracket p enough i =
        Within-bind text _ _ (table_header-Within text start TokenId.double_right_bracket p i)
          λ k p1 j. on_with _ _ (record { same = j.same; further = j.further; upto = j.upto })
    parse_turn-Within d TokenId.key p enough i =
        Within-bind text _ _ (key_value_pair-Within fuel start p enough i)
          λ kvp p1 j. on_with _ p1 j
    parse_turn-Within d TokenId.line_break p enough i = goes d p i
    parse_turn-Within d TokenId.end_of_input p enough i = i
    parse_turn-Within d _ p enough i = tt

  parse_loop-Within :
      (fuel start : ℕ) (d : TomlDocument) (p : TomlParser)
      → length text + 1 < start + fuel
      → Inside text start p
      → Within text start (parse_loop parse_from_str fuel d p)
  unfolding parse_loop
  parse_loop-Within zero start d p enough i = absurd (omega (arith, i.further, i.upto))
  parse_loop-Within (suc fuel) start d p enough i =
      Within-read text start true p _ i
        (λ t p1 j.
          parse_turn-Within fuel (suc start) (parse_loop parse_from_str fuel)
            (λ d1 p2 k. parse_loop-Within fuel (suc start) d1 p2 (omega arith) k) d t p1
            (omega arith) j)
        (λ p1 j. j)

-- The parser ends with any text: it gives a document or an error, or it panics, and needs no more
-- rounds than the text has characters, and three.
pub parse-ends :
    (parse_from_str : ChronoType → Text → Text → Bool) (text : Text)
    → parse parse_from_str text ≢ out_of_fuel
unfolding parse new_parser new_scanner
parse-ends parse_from_str text = Within-fuel text 0 _ (
    parse_loop-Within parse_from_str text (length text + 3) 0 new_document (new_parser text)
      (omega arith) (record { same = refl; further = omega arith; upto = omega arith }))
