-- ===== src/Parser/Values.antt =====
-- src/config/toml/parser.rs: values, arrays, inline tables, key-value pairs, and whole documents.
use coaly.Prelude.{ℕ, zero, suc, ◌||◌, Bool, true, false, not, Option, none, some, if◌then◌else◌}
use coaly.Prelude.Texts.{Text}
use coaly.Scanner.{TokenId}
use coaly.Scanner.Loop.{position_from_index}
use coaly.Document
use coaly.Document.{TomlValueItem, value_item, simple, TomlValue, new_table, new_array, push_item}
use coaly.Document.Editing.{
  TomlKey, TomlDocument, new_document, header_selected, insert, insert_item,
}
use coaly.Parser.{
  new_parser, key_or_table_expected, no_line_break_after_kvp, key_expected, comma_expected,
  dup_sep_token, leading_sep, trailing_sep, unterm_inline_table, comma_or_rbrace_expected,
  unsep_array_items, unterm_array, inv_array_token, inv_value_start, value_expected, inv_value,
  document_error, enhanced_error, Parsed, done, failed, panicked, out_of_fuel, Parser, bind,
  token_position, parser_error, current_pos_error, token_pos_error, key_line_error, read_token,
  same_token, rounds, key, table_header,
}
use coaly.Parser.Conversions.{ChronoType, converts}

pub record TomlKeyValuePair : Type 0 where
  pub key : TomlKey
  pub value : TomlValueItem

-- An error of the document inside of an inline table.
abbrev pub inserted : Document.Result TomlValueItem → Parser TomlValueItem
inserted (Document.ok v) p = done v p
inserted (Document.err e) p = failed (document_error e)
inserted Document.panic p = panicked

-- `enhance_error` puts the line number of the last key in front.
abbrev pub enhanced : Document.Result TomlDocument → Parser TomlDocument
enhanced (Document.ok d) p = done d p
enhanced (Document.err e) p = failed (enhanced_error p.key_line_nr e)
enhanced Document.panic p = panicked

-- `push` of an item, which changes arrays only.
abbrev pub push : TomlValueItem → TomlValueItem → TomlValueItem
push v (value_item (TomlValue.array a) line_nr flag) =
    value_item (TomlValue.array (push_item v a)) line_nr flag
push v item = item

-- An error at a separator behind a token.
abbrev pub after_sep {ℓ} : {A : Type ℓ} → TokenId → Parser A → Parser A
after_sep last_token continue p = elim last_token [
  | TokenId.comma ↦ token_pos_error dup_sep_token false p
  | TokenId.line_break ↦ token_pos_error leading_sep false p
  | _ ↦ continue p
]

abbrev pub is_separated : TokenId → Bool
is_separated last_token =
    same_token last_token TokenId.comma || same_token last_token TokenId.line_break

-- A loop from where the value begins, the last token and the value so far.
abbrev pub Loop : Type 0
Loop = ℕ × ℕ → TokenId → TomlValueItem → Parser TomlValueItem

-- The last token consumed was a left bracket.
unfoldable pub array : Loop → Parser TomlValueItem
unfolding position_from_index
array loop p =
    let start = token_position p.scanner in
    loop start TokenId.line_break (new_array start.0 false) p

-- The last token consumed was a left brace.
unfoldable pub inline_table : Loop → Parser TomlValueItem
unfolding position_from_index
inline_table loop p =
    let start = token_position p.scanner in loop start TokenId.line_break (new_table start.0 true) p

module _ (parse_from_str : ChronoType → Text → Text → Bool) where
  abbrev converted : Option Bool → ℕ → Parser TomlValueItem
  converted none line_nr p = panicked
  converted (some false) line_nr p = current_pos_error inv_value true p
  converted (some true) line_nr p =
      done (value_item (simple p.scanner.token_value_type p.scanner.token_value) line_nr false) p

  unfoldable pub token_value : Parser TomlValueItem
  unfolding converts position_from_index
  token_value p =
      converted (converts parse_from_str p.scanner.token_value_type p.scanner.token_value)
        (token_position p.scanner).0 p

  -- Each round of a loop costs a unit of fuel.
  unfoldable mutual
    unfolding read_token key token_value array inline_table position_from_index insert_item
        push_item

    -- A value after an equal sign.
    pub value : ℕ → Parser TomlValueItem
    value zero p = out_of_fuel
    value (suc fuel) p = bind (read_token false p) λ t p1. elim t [
      | TokenId.value ↦ token_value p1
      | TokenId.left_bracket ↦ array (array_loop fuel) p1
      | TokenId.left_brace ↦ inline_table (inline_loop fuel) p1
      | TokenId.dot ↦ token_pos_error inv_value_start true p1
      | _ ↦ token_pos_error value_expected true p1
    ]

    -- The loop of `array`: where the array begins, the last token, and the items so far.
    pub array_loop : ℕ → ℕ × ℕ → TokenId → TomlValueItem → Parser TomlValueItem
    array_loop zero start last_token array_data p = out_of_fuel
    array_loop (suc fuel) start last_token array_data p = bind (read_token false p) λ t p1. elim t [
      | TokenId.value ↦ elim (is_separated last_token) [
        | false ↦ token_pos_error unsep_array_items false p1
        | true ↦
            bind (token_value p1) λ val. array_loop fuel start TokenId.value (push val array_data)
      ]
      | TokenId.comma ↦ after_sep last_token (array_loop fuel start TokenId.comma array_data) p1
      | TokenId.right_bracket ↦ done array_data p1
      | TokenId.left_bracket ↦ elim (is_separated last_token) [
        | false ↦ token_pos_error unsep_array_items false p1
        | true ↦
            bind (array (array_loop fuel) p1)
              λ val. array_loop fuel start TokenId.left_bracket (push val array_data)
      ]
      | TokenId.left_brace ↦ elim (is_separated last_token) [
        | false ↦ token_pos_error unsep_array_items false p1
        | true ↦
            bind (inline_table (inline_loop fuel) p1)
              λ val. array_loop fuel start TokenId.left_brace (push val array_data)
      ]
      | TokenId.line_break ↦ array_loop fuel start last_token array_data p1
      | TokenId.end_of_input ↦ parser_error unterm_array start.0 (some start.1) none false p1
      | _ ↦ token_pos_error inv_array_token true p1
    ]

    -- The loop of `inline_table`, with the entries so far.
    pub inline_loop : ℕ → ℕ × ℕ → TokenId → TomlValueItem → Parser TomlValueItem
    inline_loop zero start last_token table_node p = out_of_fuel
    inline_loop (suc fuel) start last_token table_node p = bind (read_token true p) λ t p1. elim t [
      | TokenId.key ↦ elim (same_token last_token TokenId.key) [
        | true ↦ token_pos_error comma_expected true p1
        | false ↦ bind (key TokenId.equal p1) λ k p2. bind (value fuel p2) λ v p3.
            bind (inserted (insert_item table_node none k v) p3)
              λ node. inline_loop fuel start TokenId.key node
      ]
      | TokenId.comma ↦ after_sep last_token (inline_loop fuel start TokenId.comma table_node) p1
      | TokenId.right_brace ↦ elim (same_token last_token TokenId.comma) [
        | true ↦ token_pos_error trailing_sep false p1
        | false ↦ done table_node p1
      ]
      | TokenId.line_break ↦ parser_error unterm_inline_table start.0 (some start.1) none false p1
      | TokenId.end_of_input ↦ parser_error unterm_inline_table start.0 (some start.1) none false p1
      | _ ↦
          if is_separated last_token
          then token_pos_error key_expected true p1
          else token_pos_error comma_or_rbrace_expected true p1
    ]

  -- With the line break that ends it; `inline_loop` reads a pair without.
  unfoldable pub key_value_pair : ℕ → Parser TomlKeyValuePair
  unfolding key value read_token
  key_value_pair fuel p = bind (key TokenId.equal p) λ k p1. bind (value fuel p1) λ v p2.
      bind (read_token true p2) λ t p3.
        if not (same_token t TokenId.line_break)
        then key_line_error no_line_break_after_kvp false p3
        else done (record { key = k; value = v }) p3

  -- The match of `parse`, with what goes on behind it.
  unfoldable pub parse_turn :
      ℕ → (TomlDocument → Parser TomlDocument) → TomlDocument → TokenId → Parser TomlDocument
  unfolding table_header header_selected key_value_pair insert position_from_index
  parse_turn fuel again document TokenId.left_bracket p =
      bind (table_header TokenId.right_bracket p) λ k p1.
        bind
          (enhanced (header_selected document k false)
            (record p1 { latest_table_key = some k; latest_array_of_tables_key = none }))
          again
  parse_turn fuel again document TokenId.double_left_bracket p =
      bind (table_header TokenId.double_right_bracket p) λ k p1.
        bind
          (enhanced (header_selected document k true)
            (record p1 { latest_table_key = none; latest_array_of_tables_key = some k }))
          again
  parse_turn fuel again document TokenId.key p =
      bind (key_value_pair fuel p)
        λ kvp p1. bind (enhanced (insert document kvp.key kvp.value) p1) again
  parse_turn fuel again document TokenId.line_break p = again document p
  parse_turn fuel again document TokenId.end_of_input p = done document p
  parse_turn fuel again document _ p = token_pos_error key_or_table_expected true p

  -- The loop of `parse`, with the document so far.
  unfoldable pub parse_loop : ℕ → TomlDocument → Parser TomlDocument
  unfolding read_token parse_turn
  parse_loop zero document p = out_of_fuel
  parse_loop (suc fuel) document p =
      bind (read_token true p) (parse_turn fuel (parse_loop fuel) document)

  unfoldable pub parse : Text → Parsed TomlDocument
  unfolding parse_loop new_parser new_document
  parse data_text = let p = new_parser data_text in parse_loop (rounds p) new_document p
