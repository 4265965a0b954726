-- ===== src/Tests/Names.antt =====
-- Names and checksums: the theorems on paths, keys, CRC-32 and SHA-256 at small inputs.
use libromx.Prelude.{ℕ, ◌≡◌, ◌≢◌, ◌↔◌, true, not, ◌&&◌, ◌||◌, [], ◌∷◌, ◌++◌, map, arith, ◌==◌, All}
use libromx.Bytes.{Bytes, IsByte}
use libromx.Crc32.{crc32}
use libromx.Crc32.Detect.{crc32_detects_byte}
use libromx.Path.{path_is_valid, key_is_valid, ascii_fold_equal, fold_byte, namespace_private}
use libromx.Path.Components.{
  path_is_valid-components, key_is_valid-components, split, all_components, several,
}
use libromx.Path.Folding.{IsText, ascii_fold_equal_iff}
use libromx.Sha256.{sha256_init, sha256_update}
use libromx.Sha256.Stream.{counted, push_all, sha256_init-IsOpen, sha256_update-push_all}
use libromx.Tests.Container.{rom_path}
use libromx.Utf8.{utf8_validate}

-- The text "romx".
abbrev word : Bytes
word = 0x72 ∷ 0x6f ∷ 0x6d ∷ 0x78 ∷ []

abbrev upper_word : Bytes
upper_word = 0x52 ∷ 0x4f ∷ 0x4d ∷ 0x58 ∷ []

word-IsByte : All IsByte word
word-IsByte = (omega arith, (omega arith, (omega arith, (omega arith, tt))))

path_is_valid-components_example :
    path_is_valid rom_path ≡ (utf8_validate rom_path && all_components (split rom_path))
path_is_valid-components_example = path_is_valid-components rom_path

key_is_valid-components_example :
    key_is_valid word 4
    ≡ (path_is_valid word && (not (4 == namespace_private) || several (split word)))
key_is_valid-components_example = key_is_valid-components word 4

word-IsText : IsText word
word-IsText = (
  (omega arith, omega arith),
  ((omega arith, omega arith), ((omega arith, omega arith), ((omega arith, omega arith), tt))),
)

upper_word-IsText : IsText upper_word
upper_word-IsText = (
  (omega arith, omega arith),
  ((omega arith, omega arith), ((omega arith, omega arith), ((omega arith, omega arith), tt))),
)

ascii_fold_equal_iff_example :
    (ascii_fold_equal word upper_word ≡ true) ↔ (map fold_byte word ≡ map fold_byte upper_word)
ascii_fold_equal_iff_example = ascii_fold_equal_iff word upper_word word-IsText upper_word-IsText

abbrev seven : ℕ
seven = 7

abbrev nine : ℕ
nine = 9

seven_not_nine : seven ≢ nine
seven_not_nine h = absurd (omega (arith, h))

crc32_detects_byte_example : crc32 (word ++ (seven ∷ word)) ≢ crc32 (word ++ (nine ∷ word))
crc32_detects_byte_example =
    crc32_detects_byte word word seven nine word-IsByte word-IsByte (omega arith) (omega arith)
      seven_not_nine

sha256_update-push_all_example :
    sha256_update sha256_init word ≡ push_all (counted sha256_init 4) word
sha256_update-push_all_example = sha256_update-push_all sha256_init word sha256_init-IsOpen
