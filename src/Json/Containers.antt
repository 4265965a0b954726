-- ===== src/Json/Containers.antt =====
-- parse_container of src/json.c: what its parts leave of a container that is open, and its end.
use libromx.Prelude.{
  ℕ, suc, ◌+◌, ◌-◌, ◌≤◌, ◌<◌, ◌≡◌, refl, sym, ap, ◌∙◌, Bool, true, false, not, ◌||◌, Option, some,
  List, [], ◌∷◌, ◌++◌, append_assoc, arith, ltb, leb, ◌==◌, if◌then◌else◌, length, length-append,
}
use mathlib.Core.Path.{subst}
use libromx.Bytes.{Bytes, byte_at}
use libromx.Json.Result.{Ends, with_value, with_offset, Ends-bind, Ends-if}
use libromx.Json.Tokens.{JsonType, object, Token, Parser, end_at, move_to, new_token}
use libromx.Json.Scan.{at}
use libromx.Json.Bounds.{at_lt}
use libromx.Json.Tree.{
  shapes, Follows, IsTree, IsTree-append, Added, add_token-Ends, Grown, shapes-end_token,
}
use libromx.Json.Leaves.{skip_space_ge, skip_space_le, parse_string-Reads}
use libromx.Json.Parser.{
  skip_space, deeper, Turn, ended, going, close, close_container, open_container, parse_key,
  parse_separator,
}

-- The container with the index `token` is open: the tokens before it are `outer`, its own has no end
-- yet, and those behind it are closed.
abbrev pub Open : ℕ → List Token → ℕ → Parser → Type 0
Open size outer token parser =
    (opening : Token) × (inner : List Token) × (shapes parser ≡ outer ++ opening ∷ inner)
    × (token ≡ length outer)
    × (Token.start opening < Parser.position parser)
    × Follows (Token.parent opening) token
    × IsTree size (suc token) inner

-- A container that has got its closing bracket.
abbrev pub Ended : ℕ → List Token → Parser → Type 0
Ended size outer parser =
    (new : List Token) × (shapes parser ≡ outer ++ new) × IsTree size (length outer) new

pub length-inner :
    (outer : List Token) (opening : Token) (inner : List Token) (n : ℕ)
    → n ≡ length outer
    → length (outer ++ opening ∷ inner) ≡ suc n + length inner
length-inner outer opening inner n h = omega (arith, length-append outer (opening ∷ inner))

-- Tokens of a value that was read inside.
pub Open-grown :
    (size : ℕ) (outer : List Token) (token : ℕ) (parser grown : Parser) (value : ℕ)
    → Open size outer token parser
    → Grown size parser (value, grown)
    → Open size outer token grown
Open-grown size outer token parser grown value
      (opening, inner, whole, index, started, follows, tree)
      (value_index, (new, more, new_tree), behind, inside, level) =
    (
      opening,
      inner ++ new,
      more ∙ ap (λ s. s ++ new) whole ∙ append_assoc outer (opening ∷ inner) new,
      index,
      omega arith,
      follows,
      IsTree-append size (suc token) inner new (length (shapes parser))
          (ap length whole ∙ length-inner outer opening inner token index) tree new_tree,
    )

pub Open-moved :
    (size : ℕ) (outer : List Token) (token position : ℕ) (parser : Parser)
    → Open size outer token parser
    → Parser.position parser ≤ position
    → Open size outer token (move_to position parser)
Open-moved size outer token position parser (opening, inner, whole, index, started, follows, tree)
      on =
    (opening, inner, whole, index, omega arith, follows, tree)

-- The bracket at the position closes it.
pub Ended-close_container :
    (size : ℕ) (outer : List Token) (token : ℕ) (parser : Parser)
    → Open size outer token parser
    → Parser.position parser < size
    → Ended size outer (close_container token parser)
unfolding close_container
Ended-close_container size outer token parser (opening, inner, whole, index, started, follows, tree)
      inside =
    (
      end_at (Parser.position parser + 1) opening ∷ inner,
      shapes-end_token token outer opening inner (move_to (Parser.position parser + 1) parser) whole
          index,
      (
        (omega arith, omega arith),
        subst (λ n. Follows (Token.parent opening) n) index follows,
        subst (λ n. IsTree size (suc n) inner) index tree,
      ),
    )

-- Where parse_container stands behind an element or behind the opening bracket.
pub data TurnIn (size : ℕ) (outer : List Token) (token from level : ℕ) : Turn → Type 0 where
  ended_in :
      {parser : Parser}
      → Ended size outer parser
      → from < Parser.position parser
      → Parser.position parser ≤ size
      → Parser.depth parser ≡ level - 1
      → TurnIn size outer token from level (ended parser)
  going_in :
      {parser : Parser}
      → Open size outer token parser
      → from < Parser.position parser
      → Parser.position parser ≤ size
      → Parser.depth parser ≡ level
      → TurnIn size outer token from level (going parser)

TurnIn-if :
    {size : ℕ} {outer : List Token} {token from level : ℕ} (b : Bool) {x y : Turn}
    → (b ≡ true → TurnIn size outer token from level x)
    → (b ≡ false → TurnIn size outer token from level y)
    → TurnIn size outer token from level (if b then x else y)
TurnIn-if true hx hy = hx refl
TurnIn-if false hx hy = hy refl

pub Follows-inner :
    (size : ℕ) (outer : List Token) (token : ℕ) (parser : Parser)
    → Open size outer token parser
    → Follows (some token) (length (shapes parser))
Follows-inner size outer token parser (opening, inner, whole, index, started, follows, tree) =
    omega (arith, ap length whole, length-inner outer opening inner token index)

not-false : (b : Bool) → not b ≡ false → b ≡ true
not-false true h = refl
not-false false h = cc

module _ (realloc : ℕ → Bool) (bytes : Bytes) where
  abbrev size : ℕ
  size = length bytes

  -- What add_token and the bracket leave.
  opened :
      (kind : JsonType) (parent : Option ℕ) (parser added : Parser) (token : ℕ)
      → Follows parent (length (shapes parser))
      → Added kind (Parser.position parser) parent parser (token, added)
      → Open size
          (shapes parser)
          token
          (skip_space bytes (move_to (Parser.position parser + 1) added))
  unfolding skip_space
  opened kind parent parser added token follows (index, grown, stays, level) = (
    new_token kind (Parser.position parser) parent,
    [],
    grown,
    index,
    omega (arith, skip_space_ge bytes (move_to (Parser.position parser + 1) added)),
    subst (λ n. Follows parent n) (sym index) follows,
    tt,
  )

  pub open_container-Ends :
      (kind : JsonType) (parent : Option ℕ) (parser : Parser)
      → Follows parent (length (shapes parser))
      → Parser.position parser < size
      → Ends size
          (λ (token, turn).
            (token ≡ length (shapes parser))
            × TurnIn size
                (shapes parser)
                token
                (Parser.position parser)
                (Parser.depth parser + 1)
                turn)
          (open_container realloc bytes kind parent parser)
  unfolding open_container close_container skip_space
  open_container-Ends kind parent parser follows inside =
      Ends-if (ltb 128 (Parser.depth parser + 1)) (λ deep. with_offset (omega arith))
        λ room.
          Ends-bind
            (add_token-Ends realloc kind (Parser.position parser) parent (deeper parser) size)
            λ (token, added) (index, grown, stays, level).
              (let behind = skip_space bytes (move_to (Parser.position parser + 1) added) in
                let container_open =
                  opened kind parent (deeper parser) added token follows
                    (index, grown, stays, level) in
                let on = skip_space_ge bytes (move_to (Parser.position parser + 1) added) in
                let within =
                  skip_space_le bytes (move_to (Parser.position parser + 1) added) (omega arith) in
                Ends-if (at bytes (Parser.position behind) (close kind))
                  (λ bracket.
                    let room = at_lt bytes (Parser.position behind) (close kind) bracket in
                    with_value (
                      index,
                      ended_in
                          (Ended-close_container size (shapes parser) token behind container_open
                            room)
                          (omega (arith, on)) (omega (arith, room)) (omega (arith, level)),
                    ))
                  (λ element.
                    with_value (index, going_in container_open (omega (arith, on)) within level)))

  pub parse_key-Ends :
      (kind : JsonType) (outer : List Token) (token : ℕ) (parser : Parser)
      → Open size outer token parser
      → Parser.position parser ≤ size
      → Ends size
          (λ keyed.
            Open size outer token keyed
            × (Parser.position parser ≤ Parser.position keyed)
            × (Parser.position keyed ≤ size)
            × (Parser.depth keyed ≡ Parser.depth parser))
          (parse_key realloc bytes kind token parser)
  unfolding parse_key skip_space
  parse_key-Ends object outer token parser container_open inside =
      Ends-if (not (at bytes (Parser.position parser) 0x22)) (λ no_key. with_offset (omega arith))
        λ quote.
          Ends-bind
            (parse_string-Reads realloc bytes (some token) parser
              (Follows-inner size outer token parser container_open)
              (at_lt bytes (Parser.position parser) 0x22 (not-false _ quote)))
            λ (key, keyed) (key_index, key_tokens, key_on, keyed_in, key_level).
              (let spaced = skip_space bytes keyed in
                let position = Parser.position spaced in
                let still =
                  Open-grown size outer token parser keyed key container_open
                    (key_index, key_tokens, key_on, keyed_in, key_level) in
                let on = skip_space_ge bytes keyed in
                let within = skip_space_le bytes keyed keyed_in in
                Ends-if (leb size position) (λ past. with_offset within)
                  λ more.
                    Ends-if (not (byte_at bytes position == 0x3a))
                      (λ other. with_offset (ground arith))
                      λ colon. with_value (
                        Open-moved size outer token _ keyed still (
                            omega (arith, on, skip_space_ge bytes (move_to (position + 1) spaced))),
                        omega (arith, on, skip_space_ge bytes (move_to (position + 1) spaced)),
                        skip_space_le bytes (move_to (position + 1) spaced) (ground arith),
                        key_level,
                      ))
  parse_key-Ends _ outer token parser container_open inside =
      with_value (container_open, omega arith, inside, refl)

  pub parse_separator-Ends :
      (kind : JsonType) (outer : List Token) (token : ℕ) (parser : Parser)
      → Open size outer token parser
      → Parser.position parser ≤ size
      → Ends size
          (TurnIn size outer token (Parser.position parser) (Parser.depth parser))
          (parse_separator realloc bytes kind token parser)
  unfolding parse_separator close_container skip_space
  parse_separator-Ends kind outer token parser container_open inside =
      let spaced = skip_space bytes parser in
      let position = Parser.position spaced in
      let behind = skip_space bytes (move_to (position + 1) spaced) in
      let on = skip_space_ge bytes parser in
      let within = skip_space_le bytes parser inside in
      let later = skip_space_ge bytes (move_to (position + 1) spaced) in
      Ends-if (leb size position) (λ past. with_offset within)
        λ more.
          Ends-if (byte_at bytes position == close kind)
            (λ bracket. with_value (
              ended_in
                (Ended-close_container size outer token spaced
                  (Open-moved size outer token position parser container_open on) (ground arith))
                (omega (arith, on)) (ground arith) refl))
            λ other.
              Ends-if (not (byte_at bytes position == 0x2c)) (λ no_comma. with_offset within)
                λ comma.
                  Ends-if
                    (leb size (Parser.position behind)
                      || byte_at bytes (Parser.position behind) == close kind)
                    (λ last.
                      with_offset
                        (skip_space_le bytes (move_to (position + 1) spaced) (ground arith)))
                    (λ next. with_value (
                      going_in
                        (Open-moved size outer token (Parser.position behind) parser container_open
                          (omega (arith, on, later)))
                        (omega (arith, on, later))
                        (skip_space_le bytes (move_to (position + 1) spaced) (ground arith)) refl))
