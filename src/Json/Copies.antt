-- ===== src/Json/Copies.antt =====
-- romx_json_copy_string of src/json.c, called for the size and then with a buffer.
use libromx.Prelude.{
  ℕ, zero, suc, ◌+◌, ◌-◌, ◌≤◌, ◌<◌, ◌≡◌, refl, sym, ap, ◌∙◌, inl, inr, Bool, true, false, Option,
  none, some, [], ◌∷◌, ◌++◌, append_assoc, arith, ltb, leb, ◌==◌, if◌then◌else◌, ltb→lt, lt→ltb,
  Bool-cases, Option-cases, length, take, drop, length-append, take-append-drop, length-take,
  length-drop, take-append, drop-append, drop-drop,
}
use mathlib.Core.Path.{subst}
use libromx.Bytes.{Bytes, byte_at, copy_at, slice}
use libromx.Bytes.Writes.{length-copy_at}
use libromx.Json.Tokens.{Token}
use libromx.Json.Scan.{span}
use libromx.Json.Strings.{
  Document, decode_next, utf8_size, write_utf8, is_continuation, skip_continuation, Character,
  copied_character, next_character, put, copy_loop, Copied, finish_copy, typed_token, is_string,
  copy_token, copy_string,
}

-- What write_utf8 writes is as long as utf8_size says.
pub length-write_utf8 : (value : ℕ) → length (write_utf8 value) ≡ utf8_size value
unfolding write_utf8 utf8_size
length-write_utf8 value = ground arith

span_le : (class : ℕ → Bool) (bytes : Bytes) → span class bytes ≤ length bytes
unfolding span
span_le class [] = omega arith
span_le class (byte ∷ bytes) = ground (arith, span_le class bytes)

skip_continuation_le :
    (bytes : Bytes) (limit input : ℕ)
    → input ≤ length bytes
    → skip_continuation bytes limit input ≤ length bytes
unfolding skip_continuation
skip_continuation_le bytes limit input h = omega (
  arith,
  span_le is_continuation (take (limit - input) (drop input bytes)),
  length-take (limit - input) (drop input bytes),
  length-drop input bytes,
)

skip_continuation_ge :
    (bytes : Bytes) (limit input : ℕ) → input ≤ skip_continuation bytes limit input
unfolding skip_continuation
skip_continuation_ge bytes limit input = omega arith

decode_next-high :
    (bytes : Bytes) (limit input : ℕ)
    → leb 0x80 (byte_at bytes input) ≡ true
    → decode_next bytes limit input ≡ some (byte_at bytes input, input + 1)
unfolding decode_next
decode_next-high bytes limit input high =
    let plain : (byte_at bytes input == 0x5c) ≡ false = ground arith in rw plain refl

-- A character counts the bytes that are written for it.
abbrev Exact : Character → Type 0
Exact character = character.count ≡ length character.text

Exact-if :
    (b : Bool) (x y : Character)
    → (b ≡ true → Exact x)
    → (b ≡ false → Exact y)
    → Exact (if b then x else y)
Exact-if true x y hx hy = hx refl
Exact-if false x y hx hy = hy refl

length-slice :
    (bytes : Bytes) (offset size : ℕ)
    → offset + size ≤ length bytes
    → size ≡ length (slice offset size bytes)
length-slice bytes offset size h =
    omega (arith, length-take size (drop offset bytes), length-drop offset bytes)

copied_character-Exact :
    (bytes : Bytes) (limit input value next : ℕ)
    → input < length bytes
    → (leb 0x80 (byte_at bytes input) ≡ true → next ≡ input + 1)
    → Exact (copied_character bytes limit input (value, next))
unfolding copied_character
copied_character-Exact bytes limit input value next inside one_byte =
    Exact-if (leb 0x80 (byte_at bytes input)) _ _
      (λ high. length-slice bytes input (1 + (skip_continuation bytes limit next - next)) (
        omega (
          arith,
          one_byte high,
          skip_continuation_ge bytes limit next,
          skip_continuation_le bytes limit next (omega (arith, one_byte high)),
        )))
      (λ low. sym (length-write_utf8 value))

next_character-Exact :
    (bytes : Bytes) (limit input : ℕ) {character : Character}
    → input < length bytes
    → next_character bytes limit input ≡ some character
    → Exact character
unfolding next_character
next_character-Exact bytes limit input {character} inside h =
    elim (Option-cases (decode_next bytes limit input)) [
      | inl failed ↦ absurd (none_some (rw (next_character, failed) at h))
      | inr ((value, next), decoded_as) ↦
          subst Exact (some_injective (rw (next_character, decoded_as) at h)) (
            copied_character-Exact bytes limit input value next inside
              λ high. second_of (sym decoded_as ∙ decode_next-high bytes limit input high))
    ]
  where
    none_some : {c : Character} → none ≡ some c → ⊥
    none_some e = cc

    some_injective : {c d : Character} → some c ≡ some d → c ≡ d
    some_injective e = cc

    second_of : {p q : ℕ × ℕ} → some p ≡ some q → p.1 ≡ q.1
    second_of e = cc

abbrev prepend : Bytes → Option Bytes → Option Bytes
prepend text none = none
prepend text (some rest) = some (text ++ rest)

-- The text of a string: the reference that knows no buffer.
unfoldable pub decoded : ℕ → Bytes → ℕ → ℕ → Option Bytes
unfolding next_character
decoded zero bytes end input = some []
decoded (suc fuel) bytes end input =
    let rest : Option Bytes = elim (next_character bytes (end - 1) input) [
      | none ↦ none
      | some character ↦ prepend character.text (decoded fuel bytes end character.stop)
    ] in
    if ltb (input + 1) end then rest else some []

copy_at-empty : (buffer : Bytes) (output : ℕ) → copy_at buffer output [] ≡ buffer
copy_at-empty buffer output =
    let same : output + 0 ≡ output = omega arith in
    ap (λ n. take output buffer ++ drop n buffer) same ∙ take-append-drop output buffer

-- Two copies that touch are one.
copy_at-append :
    (buffer : Bytes) (output : ℕ) (first second : Bytes)
    → output + length first ≤ length buffer
    → copy_at (copy_at buffer output first) (output + length first) second
      ≡ copy_at buffer output (first ++ second)
copy_at-append buffer output first second room =
    let rest = drop (output + length first) buffer in
    let middle : output + length first ≡ length (take output buffer ++ first) =
      omega (arith, length-append (take output buffer) first, length-take output buffer) in
    let written = copy_at buffer output first in
    let whole : written ≡ (take output buffer ++ first) ++ rest =
      sym (append_assoc (take output buffer) first rest) in
    let before : take (output + length first) written ≡ take output buffer ++ first =
      ap (take (output + length first)) whole
      ∙ take-append (take output buffer ++ first) rest (output + length first) (sym middle) in
    let size : output + length first + length second ≡ output + length (first ++ second) =
      omega (arith, length-append first second) in
    let behind : drop (output + length first + length second) written
        ≡ drop (output + length (first ++ second)) buffer =
      sym (drop-drop (length second) (output + length first) written)
      ∙ ap (λ xs. drop (length second) (drop (output + length first) xs)) whole
      ∙ ap (drop (length second))
          (drop-append (take output buffer ++ first) rest (output + length first) (sym middle))
      ∙ drop-drop (length second) (output + length first) buffer
      ∙ ap (λ n. drop n buffer) size in
    let left = drop (output + length (first ++ second)) buffer in
    ap (λ xs. xs ++ (second ++ drop (output + length first + length second) written)) before
    ∙ ap (λ xs. (take output buffer ++ first) ++ (second ++ xs)) behind
    ∙ append_assoc (take output buffer) first (second ++ left)
    ∙ ap (λ xs. take output buffer ++ xs) (sym (append_assoc first second left))

-- What the loop leaves of a buffer from `output` on, against the text that the string decodes to.
pub data Copies (buffer : Bytes) (output : ℕ) : Option Bytes → Option (Bytes × ℕ) → Type 0 where
  no_text : Copies buffer output none none
  copied :
      {text left : Bytes} {total : ℕ}
      → total ≡ output + length text
      → length left ≡ length buffer
      → ((total < length buffer) → (left ≡ copy_at buffer output text))
      → Copies buffer output (some text) (some (left, total))

length-put :
    (buffer : Bytes) (output : ℕ) (character : Character)
    → Exact character
    → length (put buffer output character) ≡ length buffer
unfolding put
length-put buffer output character exact =
    elim (Bool-cases (ltb (output + character.count) (length buffer))) [
      | inl room ↦
          rw (put, room)
            (length-copy_at buffer output character.text (omega (arith, exact, ltb→lt _ _ room)))
      | inr full ↦ rw (put, full) refl
    ]

put-room :
    (buffer : Bytes) (output : ℕ) (character : Character)
    → output + character.count < length buffer
    → put buffer output character ≡ copy_at buffer output character.text
unfolding put
put-room buffer output character room =
    let yes_room : ltb (output + character.count) (length buffer) ≡ true = lt→ltb _ _ room in
    rw yes_room refl

-- A character and the copy of what follows it.
Copies-character :
    (buffer : Bytes) (output : ℕ) (character : Character) {text : Option Bytes}
    {rest : Option (Bytes × ℕ)}
    → Exact character
    → Copies (put buffer output character) (output + character.count) text rest
    → Copies buffer output (prepend character.text text) rest
Copies-character buffer output character exact no_text = no_text
Copies-character buffer output character exact (copied {text} {left} {total} size same content) =
    copied (omega (arith, exact, size, length-append character.text text))
      (same ∙ length-put buffer output character exact)
      λ (room : total < length buffer).
        (let fits : output + character.count < length buffer = omega (arith, size) in
          let written = put-room buffer output character fits in
          content (omega (arith, length-put buffer output character exact))
          ∙ ap (λ b. copy_at b (output + character.count) text) written
          ∙ ap (λ n. copy_at (copy_at buffer output character.text) (output + n) text) exact
          ∙ copy_at-append buffer output character.text text (omega (arith, exact)))

copy_loop-Copies :
    (fuel : ℕ) (bytes : Bytes) (end input : ℕ) (buffer : Bytes) (output : ℕ)
    → end ≤ length bytes
    → Copies buffer output
        (decoded fuel bytes end input)
        (copy_loop fuel bytes end input buffer output)
unfolding copy_loop decoded
copy_loop-Copies zero bytes end input buffer output h =
    copied (omega arith) refl λ room. sym (copy_at-empty buffer output)
copy_loop-Copies (suc fuel) bytes end input buffer output h =
    elim (Bool-cases (ltb (input + 1) end)) [
      | inr last ↦
          rw (copy_loop, decoded, last)
            (copied (omega arith) refl λ room. sym (copy_at-empty buffer output))
      | inl more ↦ elim (Option-cases (next_character bytes (end - 1) input)) [
        | inl failed ↦ rw (copy_loop, decoded, more, failed) no_text
        | inr (character, found) ↦
            rw (copy_loop, decoded, more, found)
              (Copies-character buffer output character
                (next_character-Exact bytes (end - 1) input (omega (arith, ltb→lt _ _ more)) found)
                (copy_loop-Copies fuel bytes end character.stop (put buffer output character)
                  (output + character.count) h))
      ]
    ]

-- The text of the string token.
abbrev pub string_text : Document → Token → Option Bytes
string_text document token = decoded token.end document.bytes token.end (token.start + 1)

-- How a copy of `text` into a buffer ends: the size is told, and the text with its zero is there if
-- it has room.
pub record Delivers (text buffer : Bytes) (after : Copied) : Type 0 where
  pub told : after.required ≡ some (length text + 1)
  pub answer : after.done ≡ leb (length text + 1) (length buffer)
  pub stored :
      length text + 1 ≤ length buffer → take (length text + 1) after.buffer ≡ text ++ (0 ∷ [])

finish_copy-Delivers :
    (buffer text : Bytes) (loop : Option (Bytes × ℕ))
    → Copies buffer 0 (some text) loop
    → Delivers text buffer (finish_copy buffer loop)
unfolding finish_copy
finish_copy-Delivers buffer text _ (copied {left = left} {total = total} size same content) =
    elim (Bool-cases (ltb (length left) (total + 1))) [
      | inl short ↦
          let beyond : length buffer < length text + 1 =
            omega (arith, ltb→lt _ _ short, same, size) in
          rw (finish_copy, short)
            (record {
              told = ap (λ n. some (n + 1)) length_is;
              answer = sym (lt_leb _ _ beyond);
              stored = λ room. absurd (omega arith);
            })
      | inr fits ↦
          let enough : length text + 1 ≤ length buffer =
            omega (arith, ltb_ge _ _ fits, same, size) in
          rw (finish_copy, fits)
            (record {
              told = ap (λ n. some (n + 1)) length_is;
              answer = sym (le_leb _ _ enough);
              stored = λ room.
                  ap (λ b. take (length text + 1) (copy_at b total (0 ∷ [])))
                    (content (omega (arith, size)))
                  ∙ ap (λ n. take (length text + 1) (copy_at (copy_at buffer 0 text) n (0 ∷ [])))
                      size
                  ∙ ap (take (length text + 1))
                      (copy_at-append buffer 0 text (0 ∷ []) (omega arith))
                  ∙ take-append (text ++ (0 ∷ [])) _ (length text + 1)
                      (length-append text (0 ∷ []));
            })
    ]
  where
    length_is : total ≡ length text
    length_is = omega (arith, size)

    lt_leb : (a b : ℕ) → b < a → leb a b ≡ false
    lt_leb a b h = ground arith

    le_leb : (a b : ℕ) → a ≤ b → leb a b ≡ true
    le_leb a b h = ground arith

    ltb_ge : (a b : ℕ) → ltb a b ≡ false → b ≤ a
    ltb_ge a b h = ground arith

-- A call for the size and a call with a buffer agree: each tells the length of the decoded text and one more, the call succeeds exactly when the buffer has that size, and then the buffer starts with the text and its terminating zero.
pub copy_string-Delivers :
    (document : Document) (index : Option ℕ) (token : Token) (text buffer : Bytes)
    → typed_token is_string document index ≡ some token
    → token.end ≤ length document.bytes
    → string_text document token ≡ some text
    → Delivers text [] (copy_string document index [])
      × Delivers text buffer (copy_string document index buffer)
unfolding copy_string
copy_string-Delivers document index token text buffer found inside reads =
    (delivers [], delivers buffer)
  where
    delivers :
        (b : Bytes) → Delivers text b (copy_token document b (typed_token is_string document index))
    delivers b = rw found (
        finish_copy-Delivers b text _ (
          subst
            (λ t. Copies b 0 t (copy_loop token.end document.bytes token.end (token.start + 1) b 0))
            reads
            (copy_loop-Copies token.end document.bytes token.end (token.start + 1) b 0 inside)))
