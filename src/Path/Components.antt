-- ===== src/Path/Components.antt =====
-- The names against a description by components: the text split at every slash.
use libromx.Prelude.{
  ℕ, suc, ◌-◌, ◌≡◌, refl, ap, ◌∙◌, ◌≢◌, inl, inr, Bool, true, false, not, ◌&&◌, ◌||◌, List, [], ◌∷◌,
  ◌++◌, append_assoc, append-nil, arith, ◌==◌, if◌then◌else◌, Bool-cases, length,
}
use libromx.Bytes.{Bytes}
use libromx.Utf8.{utf8_validate}
use libromx.Path.{
  slash, backslash, bad_component, path_loop, first_byte, last_byte, path_is_valid,
  namespace_private, key_loop, key_is_valid,
}

abbrev cons_head : ℕ → List Bytes → List Bytes
cons_head c [] = []
cons_head c (h ∷ t) = (c ∷ h) ∷ t

-- The parts between the slashes; there is one more than there are slashes.
abbrev pub split : Bytes → List Bytes
split [] = [] ∷ []
split (c ∷ rest) = if c == slash then [] ∷ split rest else cons_head c (split rest)

abbrev pub clean : Bytes → Bool
clean [] = true
clean (c ∷ rest) = not (c == 0 || c == backslash) && clean rest

-- A component is not empty, not "." and not "..", and has no zero byte and no backslash.
abbrev pub all_components : List Bytes → Bool
all_components [] = true
all_components (c ∷ cs) = (not (bad_component c) && clean c) && all_components cs

abbrev prepend : Bytes → List Bytes → List Bytes
prepend component [] = []
prepend component (h ∷ t) = (component ++ h) ∷ t

prepend-nil : (parts : List Bytes) → prepend [] parts ≡ parts
prepend-nil [] = refl
prepend-nil (h ∷ t) = refl

prepend-concat :
    (component : Bytes) (c : ℕ) (parts : List Bytes)
    → prepend (component ++ (c ∷ [])) parts ≡ prepend component (cons_head c parts)
prepend-concat component c [] = refl
prepend-concat component c (h ∷ t) = ap (λ (x : Bytes). x ∷ t) (append_assoc component (c ∷ []) h)

clean-append : (xs ys : Bytes) → clean (xs ++ ys) ≡ (clean xs && clean ys)
clean-append [] ys = refl
clean-append (x ∷ xs) ys = ground (arith, clean-append xs ys)

-- A part with an unclean byte in front spoils the list.
unclean_head :
    (component : Bytes) (c : ℕ) (parts : List Bytes)
    → (c == 0 || c == backslash) ≡ true
    → parts ≢ []
    → all_components (prepend component (cons_head c parts)) ≡ false
unclean_head component c [] h ne = absurd (ne refl)
unclean_head component c (p ∷ parts) h ne = ground (arith, clean-append component (c ∷ p))

split-ne-nil : (path : Bytes) → split path ≢ []
split-ne-nil [] e = cc
split-ne-nil (c ∷ rest) e = elim (Bool-cases (c == slash)) [
  | inl s ↦ cc (rw s at e)
  | inr n ↦ cons_head-ne (split rest) (split-ne-nil rest) (rw n at e)
]
  where
    cons_head-ne : (parts : List Bytes) → parts ≢ [] → cons_head c parts ≡ [] → ⊥
    cons_head-ne [] ne e = ne refl
    cons_head-ne (h ∷ t) ne e = cc

path_loop-components :
    (rest component : Bytes)
    → clean component ≡ true
    → path_loop component rest ≡ all_components (prepend component (split rest))
unfolding path_loop
path_loop-components [] component h = rw append-nil (ground arith)
path_loop-components (c ∷ rest) component h = elim (Bool-cases (c == slash)) [
  | inl at_slash ↦
      rw
        (
          at_slash,
          append-nil component,
          path_loop-components rest [] refl,
          prepend-nil (split rest),
        )
        (ground arith)
  | inr inside ↦ rw inside (elim (Bool-cases (c == 0 || c == backslash)) [
    | inl dirty ↦ rw (dirty, unclean_head component c (split rest) dirty (split-ne-nil rest)) refl
    | inr allowed ↦
        rw
          (
            allowed,
            path_loop-components rest (component ++ (c ∷ []))
                (clean-append component (c ∷ []) ∙ ground arith),
            prepend-concat component c (split rest),
          )
          refl
  ])
]

-- A slash at either end makes an empty component.
leading_slash : (c : ℕ) (rest : Bytes) → c ≡ slash → all_components (split (c ∷ rest)) ≡ false
unfolding bad_component
leading_slash c rest h = ground arith

abbrev behind : List Bytes → List Bytes
behind [] = []
behind (h ∷ t) = t

behind-cons_head : (c : ℕ) (parts : List Bytes) → behind (cons_head c parts) ≡ behind parts
behind-cons_head c [] = refl
behind-cons_head c (h ∷ t) = refl

behind-false :
    (parts : List Bytes) → all_components (behind parts) ≡ false → all_components parts ≡ false
behind-false [] h = cc
behind-false (p ∷ parts) h = ground arith

trailing_slash :
    (c : ℕ) (rest : Bytes)
    → last_byte (c ∷ rest) ≡ slash
    → all_components (behind (split (c ∷ rest))) ≡ false
unfolding bad_component
trailing_slash c [] h = ground arith
trailing_slash c (d ∷ rest) h =
    let e : suc (suc (length rest)) - 1 ≡ suc (length rest) = omega arith in
    let k : suc (length rest) - 1 ≡ length rest = omega arith in
    let ih = trailing_slash d rest (rw k (rw e at h)) in
    elim (Bool-cases (c == slash)) [
      | inl at_slash ↦ rw at_slash (behind-false (split (d ∷ rest)) ih)
      | inr inside ↦ rw (inside, behind-cons_head c (split (d ∷ rest))) ih
    ]

-- How the tests before the loop join the loop's answer.
valid_by :
    (n first last : ℕ) (utf8 : Bool) {loop parts : Bool}
    → loop ≡ parts
    → (first ≡ slash → parts ≡ false)
    → (last ≡ slash → parts ≡ false)
    → (not (suc n == 0 || first == slash || last == slash || not utf8) && loop) ≡ (utf8 && parts)
valid_by n first last utf8 e lead trail = ground arith

-- A virtual path is accepted exactly when it is UTF-8 and every part between slashes is a component.
pub path_is_valid-components :
    (path : Bytes) → path_is_valid path ≡ (utf8_validate path && all_components (split path))
unfolding path_is_valid bad_component
path_is_valid-components [] = ground arith
path_is_valid-components (c ∷ rest) =
    let loop =
      path_loop-components (c ∷ rest) [] refl
      ∙ ap all_components (prepend-nil (split (c ∷ rest))) in
    let trailing = λ (h : last_byte (c ∷ rest) ≡ slash).
      behind-false (split (c ∷ rest)) (trailing_slash c rest h) in
    valid_by (length rest) (first_byte (c ∷ rest)) (last_byte (c ∷ rest)) (utf8_validate (c ∷ rest))
      loop (leading_slash c rest) trailing

abbrev pub several : List Bytes → Bool
several (p ∷ q ∷ parts) = true
several _ = false

several-cons_head : (c : ℕ) (parts : List Bytes) → several (cons_head c parts) ≡ several parts
several-cons_head c [] = refl
several-cons_head c (p ∷ []) = refl
several-cons_head c (p ∷ q ∷ parts) = refl

several-cons : (p : Bytes) (parts : List Bytes) → parts ≢ [] → several (p ∷ parts) ≡ true
several-cons p [] ne = absurd (ne refl)
several-cons p (q ∷ parts) ne = refl

-- The loop of the keys is that of the paths, with the private separator beside it.
key_loop-path_loop :
    (rest component : Bytes) (is_private first separated : Bool)
    → key_loop is_private first separated component rest ≡ (
        path_loop component rest
        && (not is_private || (separated || first && several (split rest))))
unfolding key_loop path_loop
key_loop-path_loop [] component is_private first separated = ground arith
key_loop-path_loop (c ∷ rest) component is_private first separated =
    elim (Bool-cases (c == slash)) [
      | inl at_slash ↦
          rw
            (
              at_slash,
              key_loop-path_loop rest [] is_private false (separated || is_private && first),
              several-cons [] (split rest) (split-ne-nil rest),
            )
            (ground arith)
      | inr inside ↦
          rw
            (
              inside,
              key_loop-path_loop rest (component ++ (c ∷ [])) is_private first separated,
              several-cons_head c (split rest),
            )
            (ground arith)
    ]

-- A key of an object is accepted exactly when it is a virtual path and, in the private namespace,
-- has two components at least.
pub key_is_valid-components :
    (key : Bytes) (object_namespace : ℕ)
    → key_is_valid key object_namespace
      ≡ (path_is_valid key && (not (object_namespace == namespace_private) || several (split key)))
unfolding key_is_valid path_is_valid
key_is_valid-components key object_namespace =
    ground (arith, key_loop-path_loop key [] (object_namespace == namespace_private) true false)
