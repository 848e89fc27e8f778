-- ===== src/Prelude/Text.antt =====
-- Go's `string` and `[]byte`: lists of bytes, and the standard library's functions on them.
use Prim.Native.Nat.{ℕ, zero, suc, ◌≤◌}
use Prim.Native.Char.{code}
use Prim.Native.String.{String}
use mathlib.Core.Path.{◌≡◌, refl, sym, ap, subst, ◌∙◌}
use mathlib.Core.Logic.{◌↔◌, ◌≢◌}
use mathlib.Core.Bool.{Bool, true, false, ◌&&◌, ◌||◌}
use mathlib.Core.List.{List, [], ◌∷◌, ◌++◌, reverse, reverse-cons, reverse-reverse}
use native.Mathlib.Omega.{arith}
use relayforge.Prelude.Tests.{leb, ltb, ◌==◌, if◌then◌else◌}

abbrev pub Text : Type 0
Text = List ℕ

-- The bytes of an ASCII literal.
abbrev pub codes : String → Text
codes String.[] = []
codes (String.◌∷◌ c s) = code c ∷ codes s

unfoldable pub text_eq : Text → Text → Bool
text_eq [] [] = true
text_eq [] (y ∷ ys) = false
text_eq (x ∷ xs) [] = false
text_eq (x ∷ xs) (y ∷ ys) = (x == y) && text_eq xs ys

-- `<` of two texts, byte by byte.
unfoldable pub text_lt : Text → Text → Bool
text_lt [] [] = false
text_lt [] (y ∷ ys) = true
text_lt (x ∷ xs) [] = false
text_lt (x ∷ xs) (y ∷ ys) = ltb x y || ((x == y) && text_lt xs ys)

-- strings.HasSuffix
unfoldable pub has_suffix : Text → Text → Bool
unfolding text_eq
has_suffix suffix [] = text_eq [] suffix
has_suffix suffix (x ∷ xs) = text_eq (x ∷ xs) suffix || has_suffix suffix xs

-- strings.TrimSuffix of one byte.
unfoldable pub trim_last : ℕ → Text → Text
trim_last b [] = []
trim_last b (x ∷ []) = if x == b then [] else x ∷ []
trim_last b (x ∷ y ∷ xs) = x ∷ trim_last b (y ∷ xs)

pub text_eq_iff : (s t : Text) → (text_eq s t ≡ true) ↔ (s ≡ t)
unfolding text_eq
text_eq_iff [] [] = ground arith
text_eq_iff [] (y ∷ ys) = ground arith
text_eq_iff (x ∷ xs) [] = ground arith
text_eq_iff (x ∷ xs) (y ∷ ys) = ground (arith, text_eq_iff xs ys)

pub text_eq_refl : (s : Text) → text_eq s s ≡ true
text_eq_refl s = (text_eq_iff s s).1 refl

pub text_apart : (s t : Text) → text_eq s t ≡ false → s ≢ t
text_apart s t h e = let same = (text_eq_iff s t).1 e in absurd (cc)

abbrev pub is_empty : Text → Bool
is_empty [] = true
is_empty (_ ∷ _) = false

abbrev pub between : ℕ → ℕ → ℕ → Bool
between lo hi b = leb lo b && leb b hi

-- How many bytes the white space rune (unicode.IsSpace) at the front of a text takes; 0 if none.
space_at : Text → ℕ
space_at [] = 0
space_at (a ∷ []) = if between 9 13 a || a == 32 then 1 else 0
space_at (a ∷ b ∷ []) =
    if between 9 13 a || a == 32 then 1 else if a == 0xc2 && (b == 0x85 || b == 0xa0) then 2 else 0
space_at (a ∷ b ∷ c ∷ _) =
    if between 9 13 a || a == 32
    then 1
    else if a == 0xc2 && (b == 0x85 || b == 0xa0)
    then 2
    else if (a == 0xe1 && b == 0x9a && c == 0x80)
        || (a == 0xe2 && b == 0x80 && (between 0x80 0x8a c || c == 0xa8 || c == 0xa9 || c == 0xaf))
        || (a == 0xe2 && b == 0x81 && c == 0x9f)
        || (a == 0xe3 && b == 0x80 && c == 0x80)
    then 3
    else 0

-- The same at the end of a text, which is given in reverse.
space_before : Text → ℕ
space_before [] = 0
space_before (a ∷ []) = if between 9 13 a || a == 32 then 1 else 0
space_before (b ∷ a ∷ []) =
    if between 9 13 b || b == 32 then 1 else if a == 0xc2 && (b == 0x85 || b == 0xa0) then 2 else 0
space_before (c ∷ b ∷ a ∷ _) =
    if between 9 13 c || c == 32
    then 1
    else if b == 0xc2 && (c == 0x85 || c == 0xa0)
    then 2
    else if (a == 0xe1 && b == 0x9a && c == 0x80)
        || (a == 0xe2 && b == 0x80 && (between 0x80 0x8a c || c == 0xa8 || c == 0xa9 || c == 0xaf))
        || (a == 0xe2 && b == 0x81 && c == 0x9f)
        || (a == 0xe3 && b == 0x80 && c == 0x80)
    then 3
    else 0

-- Drops the `owed` bytes of a rune that is being dropped, then further runes of white space.
trim_with : (Text → ℕ) → ℕ → Text → Text
trim_with width owed [] = []
trim_with width (suc owed) (b ∷ bs) = trim_with width owed bs
trim_with width zero (b ∷ bs) = elim (width (b ∷ bs)) [
  | zero ↦ b ∷ bs
  | suc owed ↦ trim_with width owed bs
]

-- strings.TrimSpace
unfoldable pub trim_space : Text → Text
unfolding trim_with space_at space_before
trim_space s = reverse (trim_with space_before 0 (reverse (trim_with space_at 0 s)))

-- A text that keeps something when it is trimmed has something.
pub is_empty-trim_space : (s : Text) → is_empty (trim_space s) ≡ false → is_empty s ≡ false
unfolding trim_space
is_empty-trim_space [] h = cc
is_empty-trim_space (x ∷ s) h = refl

trim_space_ascii : trim_space (codes "  a b ") ≡ codes "a b"
unfolding trim_space
trim_space_ascii = refl

trim_space_wide : trim_space (0xc2 ∷ 0xa0 ∷ 65 ∷ 0xe2 ∷ 0x80 ∷ 0xa8 ∷ 32 ∷ []) ≡ 65 ∷ []
unfolding trim_space
trim_space_wide = refl

-- A printable ASCII byte.
abbrev pub is_graphic : ℕ → Bool
is_graphic b = between 33 126 b

space_at-graphic : (b : ℕ) (s : Text) → is_graphic b ≡ true → space_at (b ∷ s) ≡ 0
unfolding space_at
space_at-graphic b [] h = ground arith
space_at-graphic b (c ∷ []) h = ground arith
space_at-graphic b (c ∷ d ∷ s) h = ground arith

count : Text → ℕ
count [] = 0
count (x ∷ xs) = suc (count xs)

-- Before a printable first byte, white space takes none of that byte.
space_before-graphic :
    (b : ℕ) (xs : Text) → is_graphic b ≡ true → space_before (xs ++ b ∷ []) ≤ count xs
unfolding space_before count
space_before-graphic b [] h = ground arith
space_before-graphic b (x ∷ []) h = ground arith
space_before-graphic b (x ∷ y ∷ []) h = ground arith
space_before-graphic b (x ∷ y ∷ z ∷ xs) h = ground arith

trim_with-keeps :
    (b owed : ℕ) (xs : Text)
    → is_graphic b ≡ true
    → owed ≤ count xs
    → is_empty (trim_with space_before owed (xs ++ b ∷ [])) ≡ false
unfolding trim_with count
trim_with-keeps b zero [] h k =
    elim (space_before (b ∷ []))
        as (λ w.
          w ≤ 0
          → is_empty (elim w [ zero ↦ b ∷ [] | suc owed ↦ trim_with space_before owed [] ])
            ≡ false) [ zero ↦ λ _. refl | suc w ↦ λ l. absurd (omega arith) ]
      (space_before-graphic b [] h)
trim_with-keeps b (suc owed) [] h k = absurd (omega arith)
trim_with-keeps b (suc owed) (x ∷ xs) h k = trim_with-keeps b owed xs h (omega arith)
trim_with-keeps b zero (x ∷ xs) h k =
    elim (space_before (x ∷ xs ++ b ∷ []))
        as (λ w.
          w ≤ count (x ∷ xs)
          → is_empty (elim w [
            | zero ↦ x ∷ xs ++ b ∷ []
            | suc owed ↦ trim_with space_before owed (xs ++ b ∷ [])
          ])
            ≡ false) [ zero ↦ λ _. refl | suc w ↦ λ l. trim_with-keeps b w xs h (omega arith) ]
      (space_before-graphic b (x ∷ xs) h)

is_empty-append : (xs : Text) (b : ℕ) → is_empty (xs ++ b ∷ []) ≡ false
is_empty-append [] b = refl
is_empty-append (x ∷ xs) b = refl

is_empty-reverse : (xs : Text) → is_empty xs ≡ false → is_empty (reverse xs) ≡ false
is_empty-reverse [] h = h
is_empty-reverse (x ∷ xs) h =
    subst (λ t. is_empty t ≡ false) (sym (reverse-cons x xs)) (is_empty-append (reverse xs) x)

trim_with-graphic : (b : ℕ) (s : Text) → is_graphic b ≡ true → trim_with space_at 0 (b ∷ s) ≡ b ∷ s
unfolding trim_with
trim_with-graphic b s h =
    ap (λ w. elim w [ zero ↦ b ∷ s | suc owed ↦ trim_with space_at owed s ])
      (space_at-graphic b s h)

-- A text that begins with a printable byte keeps something when it is trimmed.
pub trim_space-graphic :
    (b : ℕ) (s : Text) → is_graphic b ≡ true → is_empty (trim_space (b ∷ s)) ≡ false
unfolding trim_space
trim_space-graphic b s h = is_empty-reverse _ (
    subst (λ t. is_empty (trim_with space_before 0 t) ≡ false)
      (sym (ap reverse (trim_with-graphic b s h) ∙ reverse-cons b s))
      (trim_with-keeps b 0 (reverse s) h (omega arith)))

space_before-graphic_last : (b : ℕ) (s : Text) → is_graphic b ≡ true → space_before (b ∷ s) ≡ 0
unfolding space_before
space_before-graphic_last b [] h = ground arith
space_before-graphic_last b (c ∷ []) h = ground arith
space_before-graphic_last b (c ∷ d ∷ s) h = ground arith

trim_with-graphic_last :
    (b : ℕ) (s : Text) → is_graphic b ≡ true → trim_with space_before 0 (b ∷ s) ≡ b ∷ s
unfolding trim_with
trim_with-graphic_last b s h =
    ap (λ w. elim w [ zero ↦ b ∷ s | suc owed ↦ trim_with space_before owed s ])
      (space_before-graphic_last b s h)

-- A text between printable bytes is left as it is.
pub trim_space-fixed :
    (b : ℕ) (s : Text) (c : ℕ) (back : Text)
    → is_graphic b ≡ true
    → is_graphic c ≡ true
    → reverse (b ∷ s) ≡ c ∷ back
    → trim_space (b ∷ s) ≡ b ∷ s
unfolding trim_space
trim_space-fixed b s c back h k e =
    ap (λ t. reverse (trim_with space_before 0 (reverse t))) (trim_with-graphic b s h)
    ∙ ap (λ t. reverse (trim_with space_before 0 t)) e
    ∙ ap reverse (trim_with-graphic_last c back k)
    ∙ sym (ap reverse e)
    ∙ reverse-reverse (b ∷ s)
