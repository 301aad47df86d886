-- ===== src/Arbitrage/Hex/Numbers.antt =====
-- examples/toy-arbitrage/src/rpc.rs: the quantities of JSON-RPC, written with `{:x}` and read with
-- `from_str_radix`.
use native.Mathlib.Nat.{pow-suc}
use driftbrake.Base.{
  ℕ, zero, suc, ◌+◌, ◌*◌, ◌/◌, ◌%◌, ◌^◌, ◌<◌, ◌≡◌, refl, sym, ap, ◌∙◌, List, [], ◌∷◌, ◌++◌, inl,
  inr, ltb, ◌==◌, arith, true, false, Bool, not, Bool-cases, ◌⊎◌,
}
use driftbrake.Base.Text.{codes}
use driftbrake.Arbitrage.Hex.{
  to_digit, hex_char, parse_digits, add_digit, and_then, from_str_radix_16, lower_hex_from,
  lower_hex, hex_to_u64, hex_to_u128,
}
use driftbrake.Arbitrage.Hex.RoundTrip.{to_digit-hex_char}

and_then_assoc :
    (m : List ℕ ⊎ ℕ) (f g : ℕ → List ℕ ⊎ ℕ)
    → and_then (and_then m f) g ≡ and_then m (λ n. and_then (f n) g)
and_then_assoc (inl e) f g = refl
and_then_assoc (inr n) f g = refl

and_then_ext :
    (m : List ℕ ⊎ ℕ) (f g : ℕ → List ℕ ⊎ ℕ) → ((n : ℕ) → f n ≡ g n) → and_then m f ≡ and_then m g
and_then_ext (inl e) f g h = refl
and_then_ext (inr n) f g h = h n

parse_digits-append :
    (limit acc : ℕ) (cs ds : List ℕ)
    → parse_digits limit acc (cs ++ ds)
      ≡ and_then (parse_digits limit acc cs) (λ n. parse_digits limit n ds)
unfolding parse_digits
parse_digits-append limit acc [] ds = refl
parse_digits-append limit acc (c ∷ cs) ds =
    and_then_ext (add_digit limit acc (to_digit c)) (λ n. parse_digits limit n (cs ++ ds))
      (λ n. and_then (parse_digits limit n cs) (λ m. parse_digits limit m ds))
      (λ n. parse_digits-append limit n cs ds)
    ∙ sym (
        and_then_assoc (add_digit limit acc (to_digit c)) (λ n. parse_digits limit n cs)
          (λ m. parse_digits limit m ds))

parse_digits-single :
    (limit acc d n : ℕ)
    → d < 16
    → n < limit
    → acc * 16 + d ≡ n
    → parse_digits limit acc (hex_char d ∷ []) ≡ inr n
unfolding parse_digits
parse_digits-single limit acc d n h fits e = rw (to_digit-hex_char d h) (ground arith)

parse_digits-lower_hex_from :
    (limit fuel n : ℕ)
    → n < limit
    → n < 16 ^ (suc fuel)
    → parse_digits limit 0 (lower_hex_from fuel n) ≡ inr n
unfolding lower_hex_from
parse_digits-lower_hex_from limit zero n fits h =
    parse_digits-single limit 0 (n % 16) n (omega arith) fits (omega arith)
parse_digits-lower_hex_from limit (suc fuel) n fits h = elim (Bool-cases (ltb n 16)) [
  | inl small ↦
      rw small (parse_digits-single limit 0 n n (ground (arith, small)) fits (omega arith))
  | inr large ↦ rw large (
      parse_digits-append limit 0 (lower_hex_from fuel (n / 16)) (hex_char (n % 16) ∷ [])
      ∙ ap (λ (t : List ℕ ⊎ ℕ). and_then t (λ m. parse_digits limit m (hex_char (n % 16) ∷ [])))
          (parse_digits-lower_hex_from limit fuel (n / 16) (omega arith)
            (omega (arith, pow-suc 16 (suc fuel))))
      ∙ parse_digits-single limit (n / 16) (n % 16) n (omega arith) fits (omega arith))
]

-- It starts with a digit, so with no sign.
abbrev unsigned : List ℕ → Bool
unsigned [] = false
unsigned (c ∷ cs) = not (c == 43)

unsigned-append : (cs ds : List ℕ) → unsigned cs ≡ true → unsigned (cs ++ ds) ≡ true
unsigned-append [] ds h = absurd (cc)
unsigned-append (c ∷ cs) ds h = h

unsigned-lower_hex_from : (fuel n : ℕ) → unsigned (lower_hex_from fuel n) ≡ true
unfolding lower_hex_from
unsigned-lower_hex_from zero n = ground arith
unsigned-lower_hex_from (suc fuel) n = elim (Bool-cases (ltb n 16)) [
  | inl small ↦ rw small (ground arith)
  | inr large ↦ rw large (
      unsigned-append (lower_hex_from fuel (n / 16)) (hex_char (n % 16) ∷ [])
        (unsigned-lower_hex_from fuel (n / 16)))
]

from_str_radix_16-unsigned :
    (limit : ℕ) (cs : List ℕ)
    → unsigned cs ≡ true
    → from_str_radix_16 limit cs ≡ parse_digits limit 0 cs
unfolding from_str_radix_16
from_str_radix_16-unsigned limit [] h = absurd (cc)
from_str_radix_16-unsigned limit (c ∷ []) h = refl
from_str_radix_16-unsigned limit (c ∷ d ∷ cs) h = ground arith

-- A number below the limit of its type and below 16 ^ 32 is read back from its digits.
pub from_str_radix_16-lower_hex :
    (limit n : ℕ) → n < limit → n < 2 ^ 128 → from_str_radix_16 limit (lower_hex n) ≡ inr n
unfolding lower_hex
from_str_radix_16-lower_hex limit n fits h =
    from_str_radix_16-unsigned limit (lower_hex_from 31 n) (unsigned-lower_hex_from 31 n)
    ∙ parse_digits-lower_hex_from limit 31 n fits (omega arith)

pub hex_to_u64-lower_hex : (n : ℕ) → n < 2 ^ 64 → hex_to_u64 (codes "0x" ++ lower_hex n) ≡ inr n
unfolding hex_to_u64
hex_to_u64-lower_hex n h = rw (from_str_radix_16-lower_hex (2 ^ 64) n h (omega arith)) refl

pub hex_to_u128-lower_hex : (n : ℕ) → n < 2 ^ 128 → hex_to_u128 (codes "0x" ++ lower_hex n) ≡ inr n
unfolding hex_to_u128
hex_to_u128-lower_hex n h = rw (from_str_radix_16-lower_hex (2 ^ 128) n h h) refl
