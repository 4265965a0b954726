-- ===== src/Json/Tree.antt =====
-- The token table of src/json.c as the parser leaves it: the tokens in the order of their texts, each
-- behind its parent, and what add_token and the ends of the containers do to it.
use libromx.Prelude.{
  ℕ, zero, suc, ◌+◌, ◌≤◌, ◌<◌, ◌≡◌, refl, sym, ap, ◌∙◌, inl, inr, Bool, Option, none, some, List,
  [], ◌∷◌, ◌++◌, map, arith, Option-cases, length,
}
use mathlib.Core.Path.{subst}
use libromx.Json.Result.{Ends, with_value, with_offset, Ends-bind}
use libromx.Json.Tokens.{
  JsonType, Token, Parser, modify, bump, end_at, count_child, new_token, grow_table, add_token,
  add_closed_token, end_token, move_to,
}

-- A token without its number of children, which later tokens change.
abbrev pub shape : Token → Token
shape t = record {
  kind = Token.kind t;
  start = Token.start t;
  end = Token.end t;
  parent = Token.parent t;
  child_count = 0;
}

abbrev pub shapes : Parser → List Token
shapes parser = map shape (Parser.tokens parser)

map-bump : (i : ℕ) (tokens : List Token) → map shape (modify i bump tokens) ≡ map shape tokens
map-bump i [] = refl
map-bump zero (t ∷ tokens) = refl
map-bump (suc i) (t ∷ tokens) = rw (map-bump i tokens)

map-count_child :
    (parent : Option ℕ) (tokens : List Token)
    → map shape (count_child parent tokens) ≡ map shape tokens
map-count_child none tokens = refl
map-count_child (some i) tokens = map-bump i tokens

map-end_at :
    (i position : ℕ) (tokens : List Token)
    → map shape (modify i (end_at position) tokens) ≡ modify i (end_at position) (map shape tokens)
map-end_at i position [] = refl
map-end_at zero position (t ∷ tokens) = refl
map-end_at (suc i) position (t ∷ tokens) = rw (map-end_at i position tokens)

pub map-append_shape : (xs ys : List Token) → map shape (xs ++ ys) ≡ map shape xs ++ map shape ys
map-append_shape [] ys = refl
map-append_shape (x ∷ xs) ys = rw (map-append_shape xs ys)

pub length-map-shape : (xs : List Token) → length (map shape xs) ≡ length xs
length-map-shape [] = refl
length-map-shape (x ∷ xs) = ap suc (length-map-shape xs)

pub modify-length :
    (f : Token → Token) (xs : List Token) (y : Token) (ys : List Token) (n : ℕ)
    → length xs ≡ n
    → modify n f (xs ++ y ∷ ys) ≡ xs ++ f y ∷ ys
modify-length f [] y ys zero h = refl
modify-length f [] y ys (suc n) h = absurd (omega arith)
modify-length f (x ∷ xs) y ys zero h = absurd (omega arith)
modify-length f (x ∷ xs) y ys (suc n) h = rw (modify-length f xs y ys n (omega arith))

-- A token's text is not empty and lies in a document of `size` bytes.
abbrev pub IsClosed : ℕ → Token → Type 0
IsClosed size t = (Token.start t < Token.end t) × (Token.end t ≤ size)

-- The root alone has no parent; each other token's parent stands before it.
abbrev pub Follows : Option ℕ → ℕ → Type 0
Follows none n = n ≡ 0
Follows (some parent) n = parent < n

-- The tokens from the index `n` on.
abbrev pub IsTree : ℕ → ℕ → List Token → Type 0
IsTree size n [] = Unit {0}
IsTree size n (t ∷ tokens) =
    IsClosed size t × Follows (Token.parent t) n × IsTree size (suc n) tokens

pub IsTree-append :
    (size n : ℕ) (xs ys : List Token) (m : ℕ)
    → m ≡ n + length xs
    → IsTree size n xs
    → IsTree size m ys
    → IsTree size n (xs ++ ys)
IsTree-append size n [] ys m e h k =
    let same : m ≡ n = omega arith in subst (λ i. IsTree size i ys) same k
IsTree-append size n (x ∷ xs) ys m e (closed, follows, h) k =
    (closed, follows, IsTree-append size (suc n) xs ys m (omega arith) h k)

pub IsTree-shape : (size n : ℕ) (xs : List Token) → IsTree size n (map shape xs) → IsTree size n xs
IsTree-shape size n [] h = tt
IsTree-shape size n (x ∷ xs) (closed, follows, h) =
    (closed, follows, IsTree-shape size (suc n) xs h)

-- What add_token has done.
abbrev pub Added : JsonType → ℕ → Option ℕ → Parser → ℕ × Parser → Type 0
Added kind start parent parser (index, added) =
    (index ≡ length (shapes parser))
    × (shapes added ≡ shapes parser ++ (new_token kind start parent ∷ []))
    × (Parser.position added ≡ Parser.position parser)
    × (Parser.depth added ≡ Parser.depth parser)

pub add_token-Ends :
    (realloc : ℕ → Bool) (kind : JsonType) (start : ℕ) (parent : Option ℕ) (parser : Parser)
    (size : ℕ)
    → Ends size (Added kind start parent parser) (add_token realloc kind start parent parser)
unfolding add_token
add_token-Ends realloc kind start parent parser size =
    elim (Option-cases
      (grow_table realloc (length (Parser.tokens parser)) (Parser.token_capacity parser))) [
        | inl failed ↦ rw (add_token, failed) (with_offset (omega arith))
        | inr (capacity, had) ↦
            rw (add_token, had)
              (with_value (
                sym (length-map-shape (Parser.tokens parser)),
                map-count_child parent (Parser.tokens parser ++ (new_token kind start parent ∷ []))
                    ∙ map-append_shape (Parser.tokens parser) (new_token kind start parent ∷ []),
                refl,
                refl,
              ))
      ]

-- What a call leaves that has read a value: it went on in the text, and all its tokens are closed.
abbrev pub Grown : ℕ → Parser → ℕ × Parser → Type 0
Grown size parser (token, grown) =
    (token ≡ length (shapes parser))
    × ((new : List Token) × (shapes grown ≡ shapes parser ++ new)
        × IsTree size (length (shapes parser)) new)
    × (Parser.position parser < Parser.position grown)
    × (Parser.position grown ≤ size)
    × (Parser.depth grown ≡ Parser.depth parser)

pub shapes-end_token :
    (token : ℕ) (outer : List Token) (opening : Token) (inner : List Token) (parser : Parser)
    → shapes parser ≡ outer ++ opening ∷ inner
    → token ≡ length outer
    → shapes (end_token token parser) ≡ outer ++ end_at (Parser.position parser) opening ∷ inner
shapes-end_token token outer opening inner parser whole index =
    map-end_at token (Parser.position parser) (Parser.tokens parser)
    ∙ ap (modify token (end_at (Parser.position parser))) whole
    ∙ modify-length (end_at (Parser.position parser)) outer opening inner token (sym index)

pub add_closed_token-Ends :
    (realloc : ℕ → Bool) (kind : JsonType) (parent : Option ℕ) (end : ℕ) (parser : Parser)
    (size : ℕ)
    → Follows parent (length (shapes parser))
    → Parser.position parser < end
    → end ≤ size
    → Ends size
        (Grown size parser)
        (add_closed_token realloc kind (Parser.position parser) parent end parser)
unfolding add_closed_token
add_closed_token-Ends realloc kind parent end parser size follows behind inside =
    Ends-bind
      (add_token-Ends realloc kind (Parser.position parser) parent (move_to end parser) size)
      λ (token, added) (index, grown, stays, level). with_value (
        index,
        (
          end_at end (new_token kind (Parser.position parser) parent) ∷ [],
          subst
              (λ at.
                shapes (end_token token added)
                ≡ shapes parser ++ end_at at (new_token kind (Parser.position parser) parent) ∷ [])
              stays
              (shapes-end_token token (shapes parser)
                (new_token kind (Parser.position parser) parent) [] added grown index),
          ((behind, inside), follows, tt),
        ),
        omega (arith, stays),
        omega (arith, stays),
        level,
      )
