-- ===== src/Json/Sound.antt =====
-- parse_value, parse_container and romx_json_parse of src/json.c on every text: the recursion ends with
-- the tokens of a value, each in the text and behind its parent, or with the offset of the fault.
use libromx.Prelude.{
  ℕ, zero, suc, ◌+◌, ◌-◌, ◌*◌, ◌≤◌, ◌<◌, ◌≡◌, refl, sym, ◌∙◌, ◌⊎◌, inl, inr, Bool, not, ◌||◌,
  Option, none, some, List, arith, leb, ◌==◌, Bool-cases, length,
}
use mathlib.Core.Path.{subst}
use libromx.Bytes.{Bytes}
use libromx.Json.Result.{Parse, Ends, with_value, with_offset, Ends-bind, Ends-if, Ends-map}
use libromx.Json.Tokens.{JsonType, Token, Parser}
use libromx.Json.Tree.{shapes, Follows, IsTree, IsTree-shape, Grown}
use libromx.Json.Leaves.{
  skip_space_ge, skip_space_le, Reads, parse_string-Reads, parse_number-Reads, parse_literal-Reads,
}
use libromx.Json.Containers.{
  Open, Ended, Open-grown, TurnIn, ended_in, going_in, Follows-inner, open_container-Ends,
  parse_key-Ends, parse_separator-Ends,
}
use libromx.Json.Parser.{
  skip_space, Turn, Form, nothing, string_form, number_form, literal_form, container, form_at,
  finish_turn, read_form, parse_value, parse_items, empty_parser, json_parse,
}

-- The loop of a container, or its end: what the whole container has come to.
abbrev Closes : ℕ → List Token → ℕ → ℕ → ℕ → ℕ × Parser → Type 0
Closes size outer token from level (index, parser) =
    (index ≡ token)
    × Ended size outer parser
    × (from < Parser.position parser)
    × (Parser.position parser ≤ size)
    × (Parser.depth parser ≡ level - 1)

finish_turn-Ends :
    (size : ℕ) (outer : List Token) (token from level : ℕ) (loop : Parser → Parse (ℕ × Parser))
    (turn : Turn)
    → TurnIn size outer token from level turn
    → ((parser : Parser)
        → Open size outer token parser
        → from < Parser.position parser
        → Parser.position parser ≤ size
        → Parser.depth parser ≡ level
        → Ends size (Closes size outer token from level) (loop parser))
    → Ends size (Closes size outer token from level) (finish_turn loop token turn)
finish_turn-Ends size outer token from level loop _ (ended_in closed on within shallow) again =
    with_value (refl, closed, on, within, shallow)
finish_turn-Ends size outer token from level loop _ (going_in {parser} still on within same) again =
    again parser still on within same

module _ (realloc : ℕ → Bool) (bytes : Bytes) where
  abbrev size : ℕ
  size = length bytes

  form_inside : (position : ℕ) → (form_at realloc bytes position ≡ nothing) ⊎ (position < size)
  unfolding form_at
  form_inside position = elim (Bool-cases (leb size position)) [
    | inl past ↦ inl (rw past refl)
    | inr more ↦ inr (ground arith)
  ]

  Grown-skip_space :
      (parser : Parser) (result : ℕ × Parser)
      → Grown size (skip_space bytes parser) result
      → Grown size parser result
  unfolding skip_space
  Grown-skip_space parser result (index, new, on, within, level) =
      (index, new, omega (arith, on, skip_space_ge bytes parser), within, level)

  -- The loop of a container that has just been opened at `parser`.
  abbrev LoopEnds : (JsonType → ℕ → Parser → Parse (ℕ × Parser)) → Parser → Type 0
  LoopEnds loop parser =
      (kind : JsonType) (token : ℕ) (inside : Parser)
      → Open size (shapes parser) token inside
      → Parser.position parser < Parser.position inside
      → Parser.position inside ≤ size
      → Ends size (Closes size (shapes parser) token (Parser.position inside) (Parser.depth inside))
          (loop kind token inside)

  read_form-Ends :
      (loop : JsonType → ℕ → Parser → Parse (ℕ × Parser)) (parent : Option ℕ) (parser : Parser)
      (form : Form)
      → Follows parent (length (shapes parser))
      → Parser.position parser < size
      → LoopEnds loop parser
      → Ends size (Grown size parser) (read_form realloc bytes loop parent parser form)
  read_form-Ends loop parent parser nothing follows inside again = with_offset (omega arith)
  read_form-Ends loop parent parser string_form follows inside again =
      parse_string-Reads realloc bytes parent parser follows inside
  read_form-Ends loop parent parser number_form follows inside again =
      parse_number-Reads realloc bytes parent parser follows inside
  read_form-Ends loop parent parser literal_form follows inside again =
      parse_literal-Reads realloc bytes parent parser follows inside
  read_form-Ends loop parent parser (container kind) follows inside again =
      Ends-bind (open_container-Ends realloc bytes kind parent parser follows inside)
        λ (token, turn) (index, turn_in).
          Ends-map
            (finish_turn-Ends size (shapes parser) token (Parser.position parser)
              (Parser.depth parser + 1) (loop kind token) turn turn_in
              λ opened still on within level.
                Ends-map (again kind token opened still on within)
                  λ (closed, after) (same, tree, later, most, shallow).
                    (same, tree, omega (arith, on, later), most, omega (arith, shallow, level)))
            λ (closed, after) (same, tree, later, most, shallow).
              (same ∙ index, tree, later, most, omega (arith, shallow))

  Follows-skip_space :
      (parent : Option ℕ) (parser : Parser)
      → Follows parent (length (shapes parser))
      → Follows parent (length (shapes (skip_space bytes parser)))
  unfolding skip_space
  Follows-skip_space parent parser follows = follows

  mutual
    unfolding parse_value

    value-Ends :
        (fuel : ℕ) (parent : Option ℕ) (parser : Parser)
        → Follows parent (length (shapes parser))
        → Parser.position parser ≤ size
        → 2 * (size - Parser.position parser) < fuel
        → Reads realloc bytes parser (parse_value realloc bytes fuel parent parser)
    value-Ends zero parent parser follows inside enough = absurd (omega arith)
    value-Ends (suc fuel) parent parser follows inside enough =
        let spaced = skip_space bytes parser in
        let follows_spaced = Follows-skip_space parent parser follows in
        elim (form_inside (Parser.position spaced)) [
          | inl end ↦
              subst
                (λ form.
                  Reads realloc bytes parser
                    (read_form realloc bytes (parse_items realloc bytes fuel) parent spaced form))
                (sym end) (with_offset (skip_space_le bytes parser inside))
          | inr more ↦
              Ends-map
                (read_form-Ends (parse_items realloc bytes fuel) parent spaced
                  (form_at realloc bytes (Parser.position spaced)) follows_spaced more
                  λ kind token opened still on within.
                    items-Ends fuel kind (shapes spaced) token opened still within
                      (omega (arith, skip_space_ge bytes parser, on)))
                (Grown-skip_space parser)
        ]

    items-Ends :
        (fuel : ℕ) (kind : JsonType) (outer : List Token) (token : ℕ) (parser : Parser)
        → Open size outer token parser
        → Parser.position parser ≤ size
        → suc (2 * (size - Parser.position parser)) < fuel
        → Ends size
            (Closes size outer token (Parser.position parser) (Parser.depth parser))
            (parse_items realloc bytes fuel kind token parser)
    items-Ends zero kind outer token parser still inside enough = absurd (omega arith)
    items-Ends (suc fuel) kind outer token parser still inside enough =
        Ends-bind (parse_key-Ends realloc bytes kind outer token parser still inside)
          λ keyed (key_open, key_on, key_in, key_level).
            Ends-bind
              (value-Ends fuel (some token) keyed (Follows-inner size outer token keyed key_open)
                key_in (omega (arith, key_on)))
              λ (value, valued) (index, new, on, within, level).
                Ends-bind
                  (parse_separator-Ends realloc bytes kind outer token valued
                    (Open-grown size outer token keyed valued value key_open
                      (index, new, on, within, level))
                    within)
                  λ turn turn_in.
                    Ends-map
                      (finish_turn-Ends size outer token (Parser.position valued)
                        (Parser.depth valued) (parse_items realloc bytes fuel kind token) turn
                        turn_in
                        λ again still_open later inside_again level_again.
                          Ends-map
                            (items-Ends fuel kind outer token again still_open inside_again
                              (omega (arith, key_on, on, later)))
                            λ (closed, after) (same, tree, behind, most, shallow). (
                              same,
                              tree,
                              omega (arith, behind, later),
                              most,
                              omega (arith, shallow, level_again),
                            ))
                      λ (closed, after) (same, tree, behind, most, shallow). (
                        same,
                        tree,
                        omega (arith, behind, on, key_on),
                        most,
                        omega (arith, shallow, level, key_level),
                      )

  -- romx_json_parse ends on every text: with a table in which every token lies in the text, is not empty and stands behind its parent, the first alone having none, or with the offset of the fault, which is at most the size.
  pub json_parse-Ends : Ends (length bytes) (IsTree (length bytes) 0) (json_parse realloc bytes)
  unfolding json_parse
  json_parse-Ends =
      Ends-bind
        (value-Ends (2 * length bytes + 1) none empty_parser refl (omega arith) (omega arith))
        λ (root, parser) (index, (new, whole, tree), on, within, level).
          Ends-if
            (not (root == 0) || not (Parser.position (skip_space bytes parser) == length bytes))
            (λ trailing. with_offset (skip_space_le bytes parser within))
            (λ all.
              with_value (
                IsTree-shape size 0 (Parser.tokens parser)
                  (subst (IsTree size 0) (sym whole) tree)))
