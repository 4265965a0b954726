-- ===== src/Json/Leaves.antt =====
-- parse_string, parse_number and the literals of parse_value of src/json.c: each ends behind its text
-- with a closed token, or with an offset.
use libromx.Prelude.{ℕ, ◌+◌, ◌-◌, ◌≤◌, ◌<◌, ◌≡◌, Bool, true, Option, arith, length}
use libromx.Bytes.{Bytes}
use libromx.Json.Result.{Parse, Ends, with_offset, Ends-bind, Ends-if}
use libromx.Json.Tokens.{
  JsonType, string, number, literal_true, literal_false, literal_null, Parser, add_closed_token,
}
use libromx.Json.Scan.{is_space}
use libromx.Json.Bounds.{skip_ge, skip_le, scan_string-Ends, scan_number-Ends}
use libromx.Json.Tree.{shapes, Follows, Grown, add_closed_token-Ends}
use libromx.Json.Parser.{
  skip_space, parse_string, parse_number, text_true, text_false, text_null, text_at, parse_literal,
}

pub skip_space_ge :
    (bytes : Bytes) (parser : Parser)
    → Parser.position parser ≤ Parser.position (skip_space bytes parser)
unfolding skip_space
skip_space_ge bytes parser = skip_ge is_space bytes (Parser.position parser)

pub skip_space_le :
    (bytes : Bytes) (parser : Parser)
    → Parser.position parser ≤ length bytes
    → Parser.position (skip_space bytes parser) ≤ length bytes
unfolding skip_space
skip_space_le bytes parser h = skip_le is_space bytes (Parser.position parser) h

module _ (realloc : ℕ → Bool) (bytes : Bytes) where
  abbrev pub size : ℕ
  size = length bytes

  abbrev pub Reads : Parser → Parse (ℕ × Parser) → Type 0
  Reads parser = Ends size (Grown size parser)

  pub parse_string-Reads :
      (parent : Option ℕ) (parser : Parser)
      → Follows parent (length (shapes parser))
      → Parser.position parser < size
      → Reads parser (parse_string realloc bytes parent parser)
  unfolding parse_string
  parse_string-Reads parent parser follows inside =
      Ends-bind (scan_string-Ends bytes (Parser.position parser) inside) λ end (behind, within).
        add_closed_token-Ends realloc string parent end parser size follows behind within

  pub parse_number-Reads :
      (parent : Option ℕ) (parser : Parser)
      → Follows parent (length (shapes parser))
      → Parser.position parser < size
      → Reads parser (parse_number realloc bytes parent parser)
  unfolding parse_number
  parse_number-Reads parent parser follows inside =
      Ends-bind (scan_number-Ends bytes (Parser.position parser) inside) λ end (behind, within).
        add_closed_token-Ends realloc number parent end parser size follows behind within

  text_at_room :
      (text : Bytes) (position : ℕ)
      → text_at bytes text position ≡ true
      → length text ≤ size - position
  unfolding text_at
  text_at_room text position h = ground arith

  -- A literal that stands at the position.
  literal-Reads :
      (kind : JsonType) (text : Bytes) (parent : Option ℕ) (parser : Parser)
      → Follows parent (length (shapes parser))
      → Parser.position parser < size
      → 0 < length text
      → text_at bytes text (Parser.position parser) ≡ true
      → Reads parser (
          add_closed_token realloc kind
            (Parser.position parser)
            parent
            (Parser.position parser + length text)
            parser)
  literal-Reads kind text parent parser follows inside some_text found =
      add_closed_token-Ends realloc kind parent (Parser.position parser + length text) parser size
        follows (omega arith) (omega (arith, text_at_room text (Parser.position parser) found))

  pub parse_literal-Reads :
      (parent : Option ℕ) (parser : Parser)
      → Follows parent (length (shapes parser))
      → Parser.position parser < size
      → Reads parser (parse_literal realloc bytes parent parser)
  unfolding parse_literal
  parse_literal-Reads parent parser follows inside =
      Ends-if (text_at bytes text_true (Parser.position parser))
        (literal-Reads literal_true text_true parent parser follows inside (omega arith))
        λ not_true.
          Ends-if (text_at bytes text_false (Parser.position parser))
            (literal-Reads literal_false text_false parent parser follows inside (omega arith))
            λ not_false.
              Ends-if (text_at bytes text_null (Parser.position parser))
                (literal-Reads literal_null text_null parent parser follows inside (omega arith))
                λ unknown. with_offset (omega arith)
