-- ===== src/Journal/Utf8.antt =====
-- `String::from_utf8` of the standard library, as journal/src/lib.rs uses it: well-formed UTF-8, with
-- no overlong forms and no surrogates.
use driftbrake.Base.{
  ℕ, zero, suc, Bool, true, false, ◌&&◌, List, [], ◌∷◌, Option, none, some, leb, ltb, ◌==◌,
  if◌then◌else◌, ◌≡◌, refl,
}

-- From a first byte: how many bytes follow, and the range of the next one.
abbrev first_byte : ℕ → Option (ℕ × ℕ × ℕ)
first_byte b =
    if ltb b 0x80
    then some (0, 0, 0)
    else if leb 0xc2 b && leb b 0xdf
    then some (1, 0x80, 0xbf)
    else if b == 0xe0
    then some (2, 0xa0, 0xbf)
    else if b == 0xed
    then some (2, 0x80, 0x9f)
    else if leb 0xe1 b && leb b 0xef
    then some (2, 0x80, 0xbf)
    else if b == 0xf0
    then some (3, 0x90, 0xbf)
    else if leb 0xf1 b && leb b 0xf3
    then some (3, 0x80, 0xbf)
    else if b == 0xf4
    then some (3, 0x80, 0x8f)
    else none

-- `pending` bytes of the current character are still to come, the next one from `low` to `high`.
utf8_from : (pending low high : ℕ) → List ℕ → Bool
utf8_from zero low high [] = true
utf8_from (suc n) low high [] = false
utf8_from zero low high (b ∷ rest) = elim (first_byte b) [
  | none ↦ false
  | some (n, low', high') ↦ utf8_from n low' high' rest
]
utf8_from (suc n) low high (b ∷ rest) = leb low b && leb b high && utf8_from n 0x80 0xbf rest

unfoldable pub valid_utf8 : List ℕ → Bool
unfolding utf8_from
valid_utf8 bytes = utf8_from 0 0 0 bytes

unfoldable pub from_utf8 : List ℕ → Option (List ℕ)
from_utf8 bytes = if valid_utf8 bytes then some bytes else none

-- "é€😀", and the last two bytes missing.
accepts_all_widths :
    valid_utf8 (0xc3 ∷ 0xa9 ∷ 0xe2 ∷ 0x82 ∷ 0xac ∷ 0xf0 ∷ 0x9f ∷ 0x98 ∷ 0x80 ∷ []) ≡ true
unfolding valid_utf8
accepts_all_widths = refl

rejects_cut : valid_utf8 (0xf0 ∷ 0x9f ∷ []) ≡ false
unfolding valid_utf8
rejects_cut = refl
