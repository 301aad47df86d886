-- ===== src/Base/Int.antt =====
-- Signed integers over the native numbers; two's complement of 128 bits.
use Prim.Native.Nat.{ℕ, suc, ◌+◌, ◌-◌, ◌%◌, ◌^◌, ◌≤◌, ◌<◌}
use mathlib.Core.Path.{◌≡◌, refl, ap, ◌∙◌}
use mathlib.Core.List.{List, [], ◌∷◌, ◌++◌, reverse, reverse-append}
use mathlib.Core.Bool.{Bool}
use native.Mathlib.Omega.{arith}
use driftbrake.Base.Tests.{ltb, leb, if◌then◌else◌}
use driftbrake.Base.Panics.{Outcome, value, panic, Profile, debug, release}

-- `negsuc n` is -(n + 1).
pub data ℤ : Type 0 where
  pos : ℕ → ℤ
  negsuc : ℕ → ℤ

abbrev pub pos_part : ℤ → ℕ
pos_part (pos n) = n
pos_part (negsuc n) = 0

abbrev pub neg_part : ℤ → ℕ
neg_part (pos n) = 0
neg_part (negsuc n) = suc n

-- a - b, as an integer.
abbrev pub sub_ℕ : ℕ → ℕ → ℤ
sub_ℕ a b = if leb b a then pos (a - b) else negsuc (b - a - 1)

infixl 65 ◌+ℤ◌ ◌-ℤ◌
infix 50 ◌≤ℤ◌ ◌<ℤ◌
unfoldable pub ◌+ℤ◌ : ℤ → ℤ → ℤ
a +ℤ b = sub_ℕ (pos_part a + pos_part b) (neg_part a + neg_part b)

unfoldable pub ◌-ℤ◌ : ℤ → ℤ → ℤ
a -ℤ b = sub_ℕ (pos_part a + neg_part b) (neg_part a + pos_part b)

abbrev pub ◌≤ℤ◌ : ℤ → ℤ → Type 0
a ≤ℤ b = pos_part a + neg_part b ≤ pos_part b + neg_part a

abbrev pub ◌<ℤ◌ : ℤ → ℤ → Type 0
a <ℤ b = pos_part a + neg_part b < pos_part b + neg_part a

abbrev pub ltb_ℤ : ℤ → ℤ → Bool
ltb_ℤ a b = ltb (pos_part a + neg_part b) (pos_part b + neg_part a)

pub +ℤ_parts :
    (a b : ℤ)
    → pos_part (a +ℤ b) + neg_part a + neg_part b ≡ neg_part (a +ℤ b) + pos_part a + pos_part b
unfolding ◌+ℤ◌
+ℤ_parts a b = ground arith

pub -ℤ_parts :
    (a b : ℤ)
    → pos_part (a -ℤ b) + neg_part a + pos_part b ≡ neg_part (a -ℤ b) + pos_part a + neg_part b
unfolding ◌-ℤ◌
-ℤ_parts a b = ground arith

pub eq_of_parts : (a b : ℤ) → pos_part a + neg_part b ≡ pos_part b + neg_part a → a ≡ b
eq_of_parts a b h = ground arith

pub ruleset int_laws = (arith, +ℤ_parts, -ℤ_parts, eq_of_parts)

-- The range of `i128`.
abbrev pub IsI128 : ℤ → Type 0
IsI128 (pos n) = n < 2 ^ 127
IsI128 (negsuc n) = n < 2 ^ 127

abbrev pub fits_i128 : ℤ → Bool
fits_i128 (pos n) = ltb n (2 ^ 127)
fits_i128 (negsuc n) = ltb n (2 ^ 127)

-- `z as u128`: the bit pattern.
unfoldable pub to_bits : ℤ → ℕ
to_bits (pos n) = n % 2 ^ 128
to_bits (negsuc n) = 2 ^ 128 - 1 - n % 2 ^ 128

-- `b as i128`, for a bit pattern below 2 ^ 128.
unfoldable pub of_bits : ℕ → ℤ
of_bits b = if ltb b (2 ^ 127) then pos b else negsuc (2 ^ 128 - 1 - b)

pub to_bits-lt : (z : ℤ) → to_bits z < 2 ^ 128
unfolding to_bits
to_bits-lt (pos n) = omega arith
to_bits-lt (negsuc n) = omega arith

pub of_bits-to_bits : (z : ℤ) → IsI128 z → of_bits (to_bits z) ≡ z
unfolding to_bits of_bits
of_bits-to_bits (pos n) h = ground arith
of_bits-to_bits (negsuc n) h = ground arith

pub to_bits-of_bits : (b : ℕ) → b < 2 ^ 128 → to_bits (of_bits b) ≡ b
unfolding to_bits of_bits
to_bits-of_bits b h = ground arith

pub of_bits-IsI128 : (b : ℕ) → b < 2 ^ 128 → IsI128 (of_bits b)
unfolding of_bits
of_bits-IsI128 b h = ground arith

-- The result of an `i128` operation whose exact value is `z`.
unfoldable pub arith_i128 : Profile → ℤ → Outcome ℤ
unfolding of_bits to_bits
arith_i128 debug z = if fits_i128 z then value z else panic
arith_i128 release z = value (of_bits (to_bits z))

-- The result of a `u128` operation whose exact value is `n`.
unfoldable pub arith_u128 : Profile → ℕ → Outcome ℕ
arith_u128 debug n = if ltb n (2 ^ 128) then value n else panic
arith_u128 release n = value (n % 2 ^ 128)

unfoldable pub arith_u64 : Profile → ℕ → Outcome ℕ
arith_u64 debug n = if ltb n (2 ^ 64) then value n else panic
arith_u64 release n = value (n % 2 ^ 64)

-- Where the exact value fits, both profiles return it.
pub arith_i128_fits : (profile : Profile) (z : ℤ) → IsI128 z → arith_i128 profile z ≡ value z
unfolding arith_i128
arith_i128_fits debug (pos n) h = ground arith
arith_i128_fits debug (negsuc n) h = ground arith
arith_i128_fits release z h = ap_value (of_bits-to_bits z h)
  where
    ap_value : {a b : ℤ} → a ≡ b → value a ≡ value b
    ap_value e = cc

pub arith_u128_fits : (profile : Profile) (n : ℕ) → n < 2 ^ 128 → arith_u128 profile n ≡ value n
unfolding arith_u128
arith_u128_fits debug n h = ground arith
arith_u128_fits release n h = ground arith

pub arith_u64_fits : (profile : Profile) (n : ℕ) → n < 2 ^ 64 → arith_u64 profile n ≡ value n
unfolding arith_u64
arith_u64_fits debug n h = ground arith
arith_u64_fits release n h = ground arith

-- The distance from zero.
abbrev pub abs : ℤ → ℕ
abs z = pos_part z + neg_part z

abbrev pub sum_ℤ : List ℤ → ℤ
sum_ℤ [] = pos 0
sum_ℤ (z ∷ zs) = z +ℤ sum_ℤ zs

pub abs-IsI128 : (z : ℤ) → abs z < 2 ^ 127 → IsI128 z
abs-IsI128 (pos n) h = omega arith
abs-IsI128 (negsuc n) h = omega arith

pub abs-+ℤ : (a b : ℤ) → abs (a +ℤ b) ≤ abs a + abs b
unfolding ◌+ℤ◌
abs-+ℤ a b = ground arith

pub abs--ℤ : (a b : ℤ) → abs (a -ℤ b) ≤ abs a + abs b
unfolding ◌-ℤ◌
abs--ℤ a b = ground arith

pub sum_ℤ-append : (xs ys : List ℤ) → sum_ℤ (xs ++ ys) ≡ sum_ℤ xs +ℤ sum_ℤ ys
sum_ℤ-append [] ys = omega int_laws
sum_ℤ-append (x ∷ xs) ys = ap (λ (t : ℤ). x +ℤ t) (sum_ℤ-append xs ys) ∙ omega int_laws

pub sum_ℤ-reverse : (xs : List ℤ) → sum_ℤ (reverse xs) ≡ sum_ℤ xs
sum_ℤ-reverse [] = refl
sum_ℤ-reverse (x ∷ xs) =
    ap sum_ℤ (reverse-append (x ∷ []) xs)
    ∙ sum_ℤ-append (reverse xs) (x ∷ [])
    ∙ ap (λ (t : ℤ). t +ℤ sum_ℤ (x ∷ [])) (sum_ℤ-reverse xs)
    ∙ omega int_laws
