-- ===== src/Metadata/Errors.antt =====
-- How romx_validate_metadata_bytes and romx_metadata_open of src/metadata.c refuse a document.
use libromx.Prelude.{
  ℕ, ◌+◌, ◌^◌, ◌≤◌, ◌<◌, ◌≡◌, refl, Bool, true, false, not, Option, none, some, List, arith, length,
}
use libromx.Bytes.{Bytes}
use libromx.Outcome.{
  Code, metadata_utf8, metadata_json, metadata_schema, Failure, Outcome, ok, fail, refuse_if, ◌>>=◌,
}
use libromx.Utf8.{utf8_bad_offset}
use libromx.Utf8.Bounds.{utf8_bad_offset-le}
use libromx.Json.Result.{Parse, parsed, rejected, Ends, with_value, with_offset}
use libromx.Json.Strings.{Document}
use libromx.Types.{add64}
use libromx.Json.Tokens.{Token}
use libromx.Json.Tree.{IsTree}
use libromx.Json.Parser.{json_parse}
use libromx.Json.Sound.{json_parse-Ends}
use libromx.Metadata.Schema.{valid_schema}
use libromx.Metadata.{has_bom, require_utf8, require_json, check_document}

-- Why the document at `base` was refused, and where: its text, when it starts with a byte order mark or
-- is not UTF-8 at the offset; then its JSON, which the parser rejects at the offset; then the schema.
pub data DocumentFault (realloc malloc : ℕ → Bool) (base : ℕ) (bytes : Bytes)
    : Failure → Type 0 where
  marked :
      has_bom bytes ≡ true
      → DocumentFault realloc malloc base bytes
          (record { code = metadata_utf8; byte_offset = base })
  bad_text :
      {offset : ℕ}
      → has_bom bytes ≡ false
      → utf8_bad_offset bytes ≡ some offset
      → offset ≤ length bytes
      → DocumentFault realloc malloc base bytes
          (record { code = metadata_utf8; byte_offset = base + offset })
  bad_syntax :
      {offset : ℕ}
      → has_bom bytes ≡ false
      → utf8_bad_offset bytes ≡ none
      → json_parse realloc bytes ≡ rejected offset
      → offset ≤ length bytes
      → DocumentFault realloc malloc base bytes
          (record { code = metadata_json; byte_offset = base + offset })
  bad_schema :
      {tokens : List Token}
      → has_bom bytes ≡ false
      → utf8_bad_offset bytes ≡ none
      → json_parse realloc bytes ≡ parsed tokens
      → valid_schema malloc (record { bytes = bytes; tokens = tokens }) ≡ false
      → DocumentFault realloc malloc base bytes
          (record { code = metadata_schema; byte_offset = base })

-- An accepted document: every layer is sound, and the tokens are those of the parser.
pub record Accepted (realloc malloc : ℕ → Bool) (bytes : Bytes) (document : Document) : Type 0 where
  pub no_bom : has_bom bytes ≡ false
  pub text : utf8_bad_offset bytes ≡ none
  pub same_bytes : document.bytes ≡ bytes
  pub syntax : json_parse realloc bytes ≡ parsed document.tokens
  pub tree : IsTree (length bytes) 0 document.tokens
  pub schema : valid_schema malloc document ≡ true

-- The call accepts, with `P` of what it gives, or fails with `F` of the failure.
pub data Reports {ℓ} {A : Type ℓ} (F : Failure → Type 0) (P : A → Type 0) : Outcome A → Type ℓ where
  gives : {value : A} → P value → Reports F P (ok value)
  faults : {failure : Failure} → F failure → Reports F P (fail failure)

Reports-bind {ℓ κ} :
    {A : Type ℓ} {B : Type κ} {F : Failure → Type 0} {P : A → Type 0} {Q : B → Type 0}
    {call : Outcome A} {next : A → Outcome B}
    → Reports F P call
    → ((a : A) → P a → Reports F Q (next a))
    → Reports F Q (call >>= next)
Reports-bind (gives {value} p) k = k value p
Reports-bind (faults f) k = faults f

refuse_if-Reports :
    {F : Failure → Type 0} (b : Bool) (code : Code) (base : ℕ)
    → (b ≡ true → F (record { code = code; byte_offset = base }))
    → Reports F (λ _. b ≡ false) (refuse_if b code base)
refuse_if-Reports true code base f = faults (f refl)
refuse_if-Reports false code base f = gives refl

not-false : (b : Bool) → not b ≡ false → b ≡ true
not-false true h = refl
not-false false h = cc

not-true : (b : Bool) → not b ≡ true → b ≡ false
not-true true h = cc
not-true false h = refl

module _ (realloc malloc : ℕ → Bool) (base : ℕ) (bytes : Bytes)
    (fits : base + length bytes < 2 ^ 64) where
  require_utf8-Reports :
      (o : Option ℕ)
      → utf8_bad_offset bytes ≡ o
      → has_bom bytes ≡ false
      → Reports
          (DocumentFault realloc malloc base bytes)
          (λ _. utf8_bad_offset bytes ≡ none)
          (require_utf8 base o)
  require_utf8-Reports none e no_bom = gives e
  require_utf8-Reports (some offset) e no_bom =
      let le = utf8_bad_offset-le bytes e in
      let wrap : add64 base offset ≡ base + offset = omega (arith, le, fits) in
      rw wrap (faults (bad_text no_bom e le))

  require_json-Reports :
      (p : Parse (List Token))
      → json_parse realloc bytes ≡ p
      → Ends (length bytes) (IsTree (length bytes) 0) p
      → has_bom bytes ≡ false
      → utf8_bad_offset bytes ≡ none
      → Reports
          (DocumentFault realloc malloc base bytes)
          (λ tokens. (json_parse realloc bytes ≡ parsed tokens) × IsTree (length bytes) 0 tokens)
          (require_json base p)
  require_json-Reports _ e (with_value tree) no_bom text = gives (e, tree)
  require_json-Reports _ e (with_offset {offset} le) no_bom text =
      let wrap : add64 base offset ≡ base + offset = omega (arith, le, fits) in
      rw wrap (faults (bad_syntax no_bom text e le))

  -- A metadata document whose bytes end below 2^64 is accepted when it has no byte order mark, is UTF-8, is rejected nowhere by the JSON parser and has a valid schema, and then its tokens are a sound table of the text; otherwise the failure names the first of these layers that is broken, by its code and at its offset in the document, which for the JSON is also how a table that cannot grow is reported.
  pub check_document-Reports :
      Reports
        (DocumentFault realloc malloc base bytes)
        (Accepted realloc malloc bytes)
        (check_document realloc malloc base bytes)
  unfolding check_document
  check_document-Reports =
      Reports-bind (refuse_if-Reports (has_bom bytes) metadata_utf8 base marked) λ _ no_bom.
        Reports-bind (require_utf8-Reports (utf8_bad_offset bytes) refl no_bom) λ _ text.
          Reports-bind
            (require_json-Reports (json_parse realloc bytes) refl (json_parse-Ends realloc bytes)
              no_bom text)
            λ tokens (syntax, tree).
              Reports-bind
                (refuse_if-Reports
                  (not (valid_schema malloc (record { bytes = bytes; tokens = tokens })))
                  metadata_schema base
                  (λ broken. bad_schema no_bom text syntax (not-true _ broken)))
                λ _ schema. gives (record {
                  no_bom = no_bom;
                  text = text;
                  same_bytes = refl;
                  syntax = syntax;
                  tree = tree;
                  schema = not-false _ schema;
                })
