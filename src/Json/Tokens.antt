-- ===== src/Json/Tokens.antt =====
-- The token table of src/json.c: romx_json_token_t and romx_json_document_t of json_internal.h,
-- add_token and the assignments to `tokens[token].end`. An index is an `int` in the code, with -1 for
-- none; here it is `none` or a number, which is below 2 ^ 31 for a document of less than 2 ^ 31 bytes.
use libromx.Prelude.{
  ℕ, zero, suc, ◌+◌, ◌-◌, ◌*◌, ◌/◌, ◌%◌, ◌^◌, Bool, ◌||◌, Option, none, some, List, [], ◌∷◌, ◌++◌,
  ltb, ◌==◌, if◌then◌else◌, length,
}
use libromx.Json.Result.{Parse, parsed, rejected, ◌>>=◌}

-- romx_json_type_t
pub data JsonType : Type 0 where
  object array string number literal_true literal_false literal_null : JsonType

pub record Token : Type 0 where
  pub kind : JsonType
  pub start : ℕ
  pub end : ℕ
  pub parent : Option ℕ
  pub child_count : ℕ

-- The parser with the document that it fills: `token_count` is the length of `tokens`.
pub record Parser : Type 0 where
  pub tokens : List Token
  pub token_capacity : ℕ
  pub position : ℕ
  pub depth : ℕ

module _ {ℓ} {A : Type ℓ} where
  -- An assignment to a part of the element at an index.
  abbrev pub modify : ℕ → (A → A) → List A → List A
  modify i f [] = []
  modify zero f (x ∷ xs) = f x ∷ xs
  modify (suc i) f (x ∷ xs) = x ∷ modify i f xs

abbrev pub bump : Token → Token
bump t = record {
  kind = Token.kind t;
  start = Token.start t;
  end = Token.end t;
  parent = Token.parent t;
  child_count = Token.child_count t + 1;
}

abbrev pub end_at : ℕ → Token → Token
end_at position t = record {
  kind = Token.kind t;
  start = Token.start t;
  end = position;
  parent = Token.parent t;
  child_count = Token.child_count t;
}

-- `if (parent >= 0) ++document->tokens[parent].child_count;`
abbrev pub count_child : Option ℕ → List Token → List Token
count_child none tokens = tokens
count_child (some parent) tokens = modify parent bump tokens

-- `document->token_capacity == 0U ? 64U : document->token_capacity * 2U`, in a size_t
unfoldable pub next_capacity : ℕ → ℕ
next_capacity capacity = if capacity == 0 then 64 else capacity * 2 % 2 ^ 64

-- sizeof(romx_json_token_t) where size_t has 64 bits
abbrev token_size : ℕ
token_size = 40

-- The table as it grows: `realloc` answers whether the memory for a capacity was had.
unfoldable pub grow_table : (ℕ → Bool) → ℕ → ℕ → Option ℕ
unfolding next_capacity
grow_table realloc token_count capacity =
    let larger = next_capacity capacity in
    if token_count == capacity
    then (if ltb larger capacity || ltb ((2 ^ 64 - 1) / token_size) larger
        then none
        else if realloc larger
        then some larger
        else none)
    else some capacity

abbrev pub new_token : JsonType → ℕ → Option ℕ → Token
new_token kind start parent = record {
  kind = kind;
  start = start;
  end = start;
  parent = parent;
  child_count = 0;
}

abbrev pub append_token : JsonType → ℕ → Option ℕ → ℕ → Parser → Parser
append_token kind start parent capacity parser = record {
  tokens = count_child parent (Parser.tokens parser ++ (new_token kind start parent ∷ []));
  token_capacity = capacity;
  position = Parser.position parser;
  depth = Parser.depth parser;
}

unfoldable pub add_token : (ℕ → Bool) → JsonType → ℕ → Option ℕ → Parser → Parse (ℕ × Parser)
unfolding grow_table
add_token realloc kind start parent parser =
    let index = length (Parser.tokens parser) in
    elim (grow_table realloc index (Parser.token_capacity parser)) [
      | none ↦ rejected 0
      | some capacity ↦ parsed (index, append_token kind start parent capacity parser)
    ]

-- `document->tokens[token].end = parser->position;`
abbrev pub end_token : ℕ → Parser → Parser
end_token token parser = record {
  tokens = modify token (end_at (Parser.position parser)) (Parser.tokens parser);
  token_capacity = Parser.token_capacity parser;
  position = Parser.position parser;
  depth = Parser.depth parser;
}

abbrev pub move_to : ℕ → Parser → Parser
move_to position parser = record {
  tokens = Parser.tokens parser;
  token_capacity = Parser.token_capacity parser;
  position = position;
  depth = Parser.depth parser;
}

-- A token for the text from `start` to `position`, which has ended.
unfoldable pub add_closed_token :
    (ℕ → Bool) → JsonType → ℕ → Option ℕ → ℕ → Parser → Parse (ℕ × Parser)
unfolding add_token
add_closed_token realloc kind start parent position parser =
    add_token realloc kind start parent (move_to position parser) >>= λ (token, added).
    parsed (token, end_token token added)
