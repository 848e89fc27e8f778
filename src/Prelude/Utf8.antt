-- ===== src/Prelude/Utf8.antt =====
-- Go's utf8.Valid, utf8.RuneCountInString and strings.ToValidUTF8, and what PostgreSQL stores in a `text` column.
use mathlib.Core.List.{◌++◌, [], ◌∷◌}
use mathlib.Core.Option.{some, none, Option}
use Prim.Native.Nat.{suc, ℕ, ◌-◌, ◌*◌, ◌≤◌, zero}
use mathlib.Core.Bool.{Bool, true, false, not, ◌&&◌, ◌||◌}
use mathlib.Core.Path.{◌≡◌, refl, ap, ◌∙◌}
use mathlib.Core.Logic.{inl, inr}
use native.Mathlib.Omega.{arith}
use relayforge.Prelude.Tests.{Option-cases, ltb, ◌==◌, if◌then◌else◌}
use relayforge.Prelude.Lists.{all_of, length}
use relayforge.Prelude.Text.{Text, between, is_graphic}

-- How many bytes follow a first byte, and the range of the next one; a first byte that no rune has
-- asks for a byte from an empty range.
record Expect : Type 0 where
  more : ℕ
  low : ℕ
  high : ℕ

expect : ℕ → ℕ → ℕ → Expect
expect more low high = record { more = more; low = low; high = high }

after_first : ℕ → Expect
unfolding expect
after_first b =
    if ltb b 0x80
    then expect 0 0 0
    else if between 0xc2 0xdf b
    then expect 1 0x80 0xbf
    else if b == 0xe0
    then expect 2 0xa0 0xbf
    else if b == 0xed
    then expect 2 0x80 0x9f
    else if between 0xe1 0xef b
    then expect 2 0x80 0xbf
    else if b == 0xf0
    then expect 3 0x90 0xbf
    else if between 0xf1 0xf3 b
    then expect 3 0x80 0xbf
    else if b == 0xf4
    then expect 3 0x80 0x8f
    else expect 1 1 0

valid_after : Expect → Text → Bool
unfolding after_first
valid_after e [] = e.more == 0
valid_after e (b ∷ bs) =
    let next =
      if e.more == 0
      then after_first b
      else record { more = e.more - 1; low = 0x80; high = 0xbf } in
    (e.more == 0 || between e.low e.high b) && valid_after next bs

-- utf8.Valid
unfoldable pub utf8_valid : Text → Bool
unfolding valid_after expect
utf8_valid = valid_after (expect 0 0 0)

-- A `text` value is valid UTF-8 with no zero byte.
unfoldable pub storable : Text → Bool
unfolding utf8_valid
storable s = utf8_valid s && all_of (λ b. not (b == 0)) s

utf8_valid_euro : utf8_valid (0xe2 ∷ 0x82 ∷ 0xac ∷ []) ≡ true
unfolding utf8_valid
utf8_valid_euro = refl

utf8_valid_cut : utf8_valid (65 ∷ 0xe2 ∷ 0x82 ∷ []) ≡ false
unfolding utf8_valid
utf8_valid_cut = refl

follows : Expect → Text → Bool
follows e [] = e.more == 0
follows e (b ∷ bs) =
    let rest = follows (record { more = e.more - 1; low = 0x80; high = 0xbf }) bs in
    e.more == 0 || (between e.low e.high b && rest)

-- The bytes that follow the first in the rune at the front of a text, if a valid one is there.
rune_at : Text → Option ℕ
unfolding follows after_first
rune_at [] = none
rune_at (b ∷ bs) = if follows (after_first b) bs then some (after_first b).more else none

-- Skips the `owed` bytes of a rune, then counts on; a byte in no rune counts as one.
count_runes : ℕ → Text → ℕ
unfolding rune_at
count_runes owed [] = 0
count_runes (suc owed) (b ∷ bs) = count_runes owed bs
count_runes zero (b ∷ bs) = elim (rune_at (b ∷ bs)) [
  | some more ↦ suc (count_runes more bs)
  | none ↦ suc (count_runes 0 bs)
]

-- utf8.RuneCountInString
unfoldable pub rune_count : Text → ℕ
unfolding count_runes expect
rune_count s = count_runes 0 s

-- Copies the `owed` bytes of a rune, then goes on; `bad` says that the last byte was in no rune.
pub replace_runs : Text → Bool → ℕ → Text → Text
unfolding rune_at
replace_runs by bad owed [] = []
replace_runs by bad (suc owed) (b ∷ bs) = b ∷ replace_runs by false owed bs
replace_runs by bad zero (b ∷ bs) = elim (rune_at (b ∷ bs)) [
  | some more ↦ b ∷ replace_runs by false more bs
  | none ↦ let rest = replace_runs by true 0 bs in if bad then rest else by ++ rest
]

-- strings.ToValidUTF8: each run of bytes in no rune becomes the replacement.
unfoldable pub to_valid_utf8 : Text → Text → Text
unfolding replace_runs
to_valid_utf8 s by = replace_runs by false 0 s

-- U+FFFD
abbrev pub replacement : Text
replacement = 0xef ∷ 0xbf ∷ 0xbd ∷ []

to_valid_utf8_run :
    to_valid_utf8 (65 ∷ 0xff ∷ 0xfe ∷ 66 ∷ 0xe2 ∷ 0x82 ∷ []) replacement
    ≡ 65 ∷ 0xef ∷ 0xbf ∷ 0xbd ∷ 66 ∷ 0xef ∷ 0xbf ∷ 0xbd ∷ []
unfolding to_valid_utf8 expect
to_valid_utf8_run = refl

after_first-graphic : (b : ℕ) → is_graphic b ≡ true → after_first b ≡ expect 0 0 0
unfolding after_first
after_first-graphic b h = ground arith

follows-expect : (s : Text) → follows (expect 0 0 0) s ≡ true
unfolding follows expect
follows-expect [] = refl
follows-expect (b ∷ s) = refl

rune_at-graphic : (b : ℕ) (s : Text) → is_graphic b ≡ true → rune_at (b ∷ s) ≡ some 0
unfolding rune_at expect
rune_at-graphic b s h =
    ap (λ e. if follows e s then some e.more else none) (after_first-graphic b h)
    ∙ ap (λ c. if c then some 0 else none) (follows-expect s)

-- A printable first byte stays in front.
pub to_valid_utf8-graphic :
    (b : ℕ) (s by : Text)
    → is_graphic b ≡ true
    → to_valid_utf8 (b ∷ s) by ≡ b ∷ replace_runs by false 0 s
unfolding to_valid_utf8
to_valid_utf8-graphic b s by h =
    ap
      (λ o. elim o as (λ _. Text) [
        | some more ↦ b ∷ replace_runs by false more s
        | none ↦ let rest = replace_runs by true 0 s in by ++ rest
      ])
      (rune_at-graphic b s h)

replace_runs-le :
    (bad : Bool) (owed : ℕ) (s : Text) → length (replace_runs replacement bad owed s) ≤ 3 * length s
unfolding replace_runs
replace_runs-le bad owed [] = omega arith
replace_runs-le bad (suc owed) (b ∷ bs) = omega (arith, replace_runs-le false owed bs)
replace_runs-le bad zero (b ∷ bs) = elim (Option-cases (rune_at (b ∷ bs))) [
  | inr (more, e) ↦ ground (arith, e, replace_runs-le false more bs)
  | inl e ↦ ground (arith, e, replace_runs-le true 0 bs)
]

-- Every byte of a text in no rune becomes three bytes at most.
pub length-to_valid_utf8-le : (s : Text) → length (to_valid_utf8 s replacement) ≤ 3 * length s
unfolding to_valid_utf8
length-to_valid_utf8-le s = replace_runs-le false 0 s
