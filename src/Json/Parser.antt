-- ===== src/Json/Parser.antt =====
-- The recursive descent of src/json.c: parse_string, parse_number, parse_container, parse_value and
-- romx_json_parse. `bad_offset` is 0 until a check sets it, so a refusal that sets none reports 0.
use libromx.Prelude.{
  ℕ, zero, suc, ◌+◌, ◌-◌, ◌*◌, Bool, not, ◌&&◌, ◌||◌, Option, none, some, List, [], ◌∷◌, ltb, leb,
  ◌==◌, if◌then◌else◌, length,
}
use libromx.Bytes.{Bytes, byte_at, bytes_equal, slice}
use libromx.Json.Result.{Parse, parsed, rejected, out_of_fuel, ◌>>=◌}
use libromx.Json.Tokens.{
  JsonType, object, array, string, number, literal_true, literal_false, literal_null, Token, Parser,
  add_token, add_closed_token, end_token, move_to,
}
use libromx.Json.Scan.{is_space, skip, at, is_digit, scan_string, scan_number}

unfoldable pub skip_space : Bytes → Parser → Parser
unfolding skip is_space
skip_space bytes parser = move_to (skip is_space bytes (Parser.position parser)) parser

-- An open container, or one that has its closing bracket.
pub data Turn : Type 0 where
  ended going : Parser → Turn

unfoldable pub close : JsonType → ℕ
close object = 0x7d
close _ = 0x5d

-- What the byte at the position announces.
pub data Form : Type 0 where
  nothing string_form number_form literal_form : Form
  container : JsonType → Form

abbrev pub empty_parser : Parser
empty_parser = record { tokens = []; token_capacity = 0; position = 0; depth = 0 }

-- `++parser->position; …end = parser->position; --parser->depth; return token;`
unfoldable pub close_container : ℕ → Parser → Parser
close_container token parser =
    let closed = end_token token (move_to (Parser.position parser + 1) parser) in
    record {
      tokens = Parser.tokens closed;
      token_capacity = Parser.token_capacity closed;
      position = Parser.position closed;
      depth = Parser.depth closed - 1;
    }

abbrev pub finish_turn : (Parser → Parse (ℕ × Parser)) → ℕ → Turn → Parse (ℕ × Parser)
finish_turn loop token (ended parser) = parsed (token, parser)
finish_turn loop token (going parser) = loop parser

-- `size - parser->position >= sizeof(text) - 1U && memcmp(…) == 0`
unfoldable pub text_at : Bytes → Bytes → ℕ → Bool
unfolding bytes_equal
text_at bytes text position =
    leb (length text) (length bytes - position)
    && bytes_equal (slice position (length text) bytes) text

abbrev pub text_true : Bytes
text_true = 0x74 ∷ 0x72 ∷ 0x75 ∷ 0x65 ∷ []

abbrev pub text_false : Bytes
text_false = 0x66 ∷ 0x61 ∷ 0x6c ∷ 0x73 ∷ 0x65 ∷ []

abbrev pub text_null : Bytes
text_null = 0x6e ∷ 0x75 ∷ 0x6c ∷ 0x6c ∷ []

-- `++parser->depth`
abbrev pub deeper : Parser → Parser
deeper parser = record {
  tokens = Parser.tokens parser;
  token_capacity = Parser.token_capacity parser;
  position = Parser.position parser;
  depth = Parser.depth parser + 1;
}

module _ (realloc : ℕ → Bool) (bytes : Bytes) where
  unfoldable pub parse_string : Option ℕ → Parser → Parse (ℕ × Parser)
  unfolding scan_string add_closed_token
  parse_string parent parser = scan_string bytes (Parser.position parser) >>= λ end.
      add_closed_token realloc string (Parser.position parser) parent end parser

  unfoldable pub parse_number : Option ℕ → Parser → Parse (ℕ × Parser)
  unfolding scan_number add_closed_token
  parse_number parent parser = scan_number bytes (Parser.position parser) >>= λ end.
      add_closed_token realloc number (Parser.position parser) parent end parser

  unfoldable pub parse_literal : Option ℕ → Parser → Parse (ℕ × Parser)
  unfolding text_at add_closed_token
  parse_literal parent parser =
      let start = Parser.position parser in
      let literal : JsonType → ℕ → Parse (ℕ × Parser) =
        λ kind size. add_closed_token realloc kind start parent (start + size) parser in
      if text_at bytes text_true start
      then literal literal_true 4
      else if text_at bytes text_false start
      then literal literal_false 5
      else if text_at bytes text_null start
      then literal literal_null 4
      else rejected start

  -- parse_container up to its loop.
  unfoldable pub open_container : JsonType → Option ℕ → Parser → Parse (ℕ × Turn)
  unfolding add_token skip_space at close close_container
  open_container kind parent parser =
      let start = Parser.position parser in
      if ltb 128 (Parser.depth parser + 1)
      then rejected start
      else (add_token realloc kind start parent (deeper parser) >>= λ (token, added).
          let inside = skip_space bytes (move_to (start + 1) added) in
          if at bytes (Parser.position inside) (close kind)
          then parsed (token, ended (close_container token inside))
          else parsed (token, going inside))

  -- The key of an object's member with its colon.
  unfoldable pub parse_key : JsonType → ℕ → Parser → Parse Parser
  unfolding at parse_string skip_space
  parse_key object token parser =
      if not (at bytes (Parser.position parser) 0x22)
      then rejected 0
      else (parse_string (some token) parser >>= λ (key, keyed).
          let spaced = skip_space bytes keyed in
          let position = Parser.position spaced in
          if leb (length bytes) position
          then rejected position
          else if not (byte_at bytes position == 0x3a)
          then rejected (position + 1)
          else parsed (skip_space bytes (move_to (position + 1) spaced)))
  parse_key _ token parser = parsed parser

  -- What follows an element: the closing bracket, or a comma with another element behind it.
  unfoldable pub parse_separator : JsonType → ℕ → Parser → Parse Turn
  unfolding skip_space close close_container
  parse_separator kind token parser =
      let spaced = skip_space bytes parser in
      let position = Parser.position spaced in
      let behind = skip_space bytes (move_to (position + 1) spaced) in
      let position_behind = Parser.position behind in
      if leb (length bytes) position
      then rejected position
      else if byte_at bytes position == close kind
      then parsed (ended (close_container token spaced))
      else if not (byte_at bytes position == 0x2c)
      then rejected position
      else if leb (length bytes) position_behind || byte_at bytes position_behind == close kind
      then rejected position_behind
      else parsed (going behind)

  unfoldable pub form_at : ℕ → Form
  unfolding is_digit
  form_at position =
      let byte = byte_at bytes position in
      if leb (length bytes) position
      then nothing
      else if byte == 0x7b
      then container object
      else if byte == 0x5b
      then container array
      else if byte == 0x22
      then string_form
      else if byte == 0x2d || is_digit byte
      then number_form
      else literal_form

  -- The branch of parse_value for what stands at the position; `loop` is the loop of parse_container.
  abbrev pub read_form :
      (JsonType → ℕ → Parser → Parse (ℕ × Parser)) → Option ℕ → Parser → Form → Parse (ℕ × Parser)
  read_form loop parent parser nothing = rejected (Parser.position parser)
  read_form loop parent parser string_form = parse_string parent parser
  read_form loop parent parser number_form = parse_number parent parser
  read_form loop parent parser literal_form = parse_literal parent parser
  read_form loop parent parser (container kind) =
      open_container kind parent parser >>= λ (token, turn).
      finish_turn (loop kind token) token turn

  -- parse_value with parse_container in it, whose loop is parse_items. Each call of the two costs a
  -- unit of fuel.
  unfoldable mutual
    unfolding form_at skip_space parse_string parse_number parse_literal open_container parse_key
        parse_separator

    pub parse_value : ℕ → Option ℕ → Parser → Parse (ℕ × Parser)
    parse_value zero parent parser = out_of_fuel
    parse_value (suc fuel) parent parser =
        let spaced = skip_space bytes parser in
        read_form (parse_items fuel) parent spaced (form_at (Parser.position spaced))

    pub parse_items : ℕ → JsonType → ℕ → Parser → Parse (ℕ × Parser)
    parse_items zero kind token parser = out_of_fuel
    parse_items (suc fuel) kind token parser = parse_key kind token parser >>= λ keyed.
        parse_value fuel (some token) keyed >>= λ (value, valued).
        parse_separator kind token valued >>= λ turn.
        finish_turn (parse_items fuel kind token) token turn

  -- The tokens of the document, the root first, or `*bad_offset`.
  unfoldable pub json_parse : Parse (List Token)
  unfolding parse_value skip_space
  json_parse = parse_value (2 * length bytes + 1) none empty_parser >>= λ (root, parser).
      let position = Parser.position (skip_space bytes parser) in
      if not (root == 0) || not (position == length bytes)
      then rejected position
      else parsed (Parser.tokens parser)
