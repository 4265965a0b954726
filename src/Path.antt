-- ===== src/Path.antt =====
-- Names inside a container: path_is_valid of src/ridx.c, key_is_valid of src/mutable.c, key_valid of
-- src/mutable_write.c, valid_virtual_path of src/writer.c, and ascii_fold_equal, which these files
-- each define. A C string is the list of the bytes before its terminating zero. The loops keep the
-- bytes between `component` and `index` in place of the two indices.
pub mod Components
pub mod Folding
use libromx.Prelude.{
  ℕ, zero, suc, ◌+◌, ◌-◌, ◌*◌, ◌/◌, ◌%◌, ◌^◌, ◌≤◌, ◌<◌, min, bit_and, bit_or, bit_xor, ◌≡◌, refl,
  sym, ap, ◌∙◌, ◌≢◌, ◌↔◌, ◌⊎◌, inl, inr, Bool, true, false, not, ◌&&◌, ◌||◌, Option, none, some,
  List, [], ◌∷◌, ◌++◌, map, append_assoc, append-nil, arith, ltb, leb, ◌==◌, if◌then◌else◌, ltb→lt,
  lt→ltb, ==_iff, Bool-cases, Option-cases, length, get_or, set, take, drop, replicate, All,
  length-append, length-set, take-append-drop, length-take, length-drop, length-replicate, take-all,
  take-append, drop-append, drop-drop, take-append-take, All-append, All-take, All-drop, All-get_or,
}
use libromx.Bytes.{Bytes}
use libromx.Utf8.{utf8_validate}

abbrev pub slash : ℕ
slash = b'/'

abbrev pub backslash : ℕ
backslash = 0x5c

abbrev pub dot : ℕ
dot = b'.'

-- The test at the end of a component: empty, "." and ".." are refused.
unfoldable pub bad_component : Bytes → Bool
bad_component [] = true
bad_component (a ∷ []) = a == dot
bad_component (a ∷ b ∷ []) = a == dot && b == dot
bad_component (a ∷ b ∷ c ∷ rest) = false

-- The loop of path_is_valid, on the current component and the bytes that are left.
pub path_loop : Bytes → Bytes → Bool
path_loop component [] = not (bad_component component)
path_loop component (c ∷ rest) =
    if not (c == slash)
    then not (c == 0 || c == backslash) && path_loop (component ++ (c ∷ [])) rest
    else not (bad_component component) && path_loop [] rest

abbrev pub first_byte : Bytes → ℕ
first_byte path = get_or path 0 0

abbrev pub last_byte : Bytes → ℕ
last_byte path = get_or path (length path - 1) 0

-- The tests before the loops.
abbrev pub bad_ends : Bytes → Bool
bad_ends path =
    length path == 0
    || first_byte path == slash
    || last_byte path == slash
    || not (utf8_validate path)

unfoldable pub path_is_valid : Bytes → Bool
unfolding path_loop
path_is_valid path = not (bad_ends path) && path_loop [] path

-- The loop of key_is_valid: `first` is `component == 0`, `separated` is `has_private_separator`.
pub key_loop : Bool → Bool → Bool → Bytes → Bytes → Bool
key_loop is_private first separated component [] =
    not (bad_component component) && (not is_private || separated)
key_loop is_private first separated component (c ∷ rest) =
    if not (c == slash)
    then not (c == 0 || c == backslash)
      && key_loop is_private first separated (component ++ (c ∷ [])) rest
    else not (bad_component component)
      && key_loop is_private false (separated || is_private && first) [] rest

-- ROMX_MUTABLE_NAMESPACE_SAVE to ROMX_MUTABLE_NAMESPACE_PRIVATE, and ROMX_MUTABLE_KEY_CAPACITY.
abbrev pub namespace_save : ℕ
namespace_save = 1

abbrev pub namespace_private : ℕ
namespace_private = 4

abbrev pub key_capacity : ℕ
key_capacity = 448

unfoldable pub key_is_valid : Bytes → ℕ → Bool
unfolding key_loop
key_is_valid key object_namespace =
    not (bad_ends key) && key_loop (object_namespace == namespace_private) true false [] key

-- key_valid of the write path: the size and the namespace are tested too. `strlen` leaves no zero byte
-- inside the key, so the loop's missing test for one makes no difference.
unfoldable pub key_valid : ℕ → Bytes → Bool
unfolding key_loop
key_valid object_namespace key =
    not (
      length key == 0
      || ltb key_capacity (length key)
      || first_byte key == slash
      || last_byte key == slash
      || ltb object_namespace namespace_save
      || ltb namespace_private object_namespace
      || not (utf8_validate key))
    && key_loop (object_namespace == namespace_private) true false [] key

-- `if (a >= 'A' && a <= 'Z') a = (unsigned char)(a + 32);`
unfoldable pub fold_byte : ℕ → ℕ
fold_byte a = if leb b'A' a && leb a b'Z' then (a + 32) % 256 else a

-- The end of a string reads as its terminating zero.
unfoldable pub ascii_fold_equal : Bytes → Bytes → Bool
ascii_fold_equal [] [] = true
ascii_fold_equal [] (y ∷ ys) = 0 == fold_byte y
ascii_fold_equal (x ∷ xs) [] = fold_byte x == 0
ascii_fold_equal (x ∷ xs) (y ∷ ys) =
    if not (fold_byte x == fold_byte y) then false else fold_byte x == 0 || ascii_fold_equal xs ys
