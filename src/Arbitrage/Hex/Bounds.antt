-- ===== src/Arbitrage/Hex/Bounds.antt =====
-- examples/toy-arbitrage/src/rpc.rs: the ranges of what the readers of hexadecimal text return.
use driftbrake.Base.{
  ℕ, ◌^◌, ◌<◌, ◌≡◌, refl, subst, ◌&&◌, List, [], ◌∷◌, Option, none, some, ◌⊎◌, inl, inr, All, ◌==◌,
  arith, true, false, Bool, value, panic, Bool-cases,
}
use driftbrake.Base.Bytes.{IsByte}
use driftbrake.Arbitrage.Hex.{
  Fallible, ◌>>=◌, ok, to_digit, add_digit, and_then, parse_digits, from_str_radix_16, slice_byte,
  parse_pairs, or_malformed, pad_even, strip_0x, hex_to_bytes, hex_to_u64, hex_to_u128, malformed,
  map_err, is_boundary,
}

-- Inversion of a step that succeeds.
pub >>=-eq-ok :
    {E A B : Type 0} (m : Fallible E A) (f : A → Fallible E B) {b : B}
    → (m >>= f) ≡ ok b
    → (a : A) × (m ≡ ok a) × (f a ≡ ok b)
>>=-eq-ok (value (inl e)) f h = cc
>>=-eq-ok (value (inr a)) f h = (a, refl, h)
>>=-eq-ok panic f h = cc

and_then-eq-inr :
    (m : List ℕ ⊎ ℕ) (f : ℕ → List ℕ ⊎ ℕ) {n : ℕ}
    → and_then m f ≡ inr n
    → (a : ℕ) × (m ≡ inr a) × (f a ≡ inr n)
and_then-eq-inr (inl e) f h = cc
and_then-eq-inr (inr a) f h = (a, refl, h)

pub map_err-eq-inr :
    {E F A : Type 0} (f : E → F) (m : E ⊎ A) {a : A} → map_err f m ≡ inr a → m ≡ inr a
map_err-eq-inr f (inl e) h = cc
map_err-eq-inr f (inr a) h = cc

add_digit-lt : (limit acc n : ℕ) (d : Option ℕ) → add_digit limit acc d ≡ inr n → n < limit
add_digit-lt limit acc n none h = cc
add_digit-lt limit acc n (some d) h = ground arith

parse_digits-lt :
    (limit acc n : ℕ) (cs : List ℕ) → acc < limit → parse_digits limit acc cs ≡ inr n → n < limit
unfolding parse_digits
parse_digits-lt limit acc n [] fits h = ground arith
parse_digits-lt limit acc n (c ∷ cs) fits h =
    let (m, e, e') =
      and_then-eq-inr (add_digit limit acc (to_digit c)) (λ k. parse_digits limit k cs) h in
    parse_digits-lt limit m n cs (add_digit-lt limit acc m (to_digit c) e) e'

from_str_radix_16-lt :
    (limit n : ℕ) (cs : List ℕ) → 0 < limit → from_str_radix_16 limit cs ≡ inr n → n < limit
unfolding from_str_radix_16
from_str_radix_16-lt limit n [] fits h = cc
from_str_radix_16-lt limit n (c ∷ []) fits h = parse_digits-lt limit 0 n (c ∷ []) fits h
from_str_radix_16-lt limit n (c ∷ d ∷ cs) fits h = elim (Bool-cases (c == 43)) [
  | inl plus ↦ parse_digits-lt limit 0 n (d ∷ cs) fits (rw plus at h)
  | inr digit ↦ parse_digits-lt limit 0 n (c ∷ d ∷ cs) fits (rw digit at h)
]

pub hex_to_u64-lt : (s : List ℕ) (n : ℕ) → hex_to_u64 s ≡ inr n → n < 2 ^ 64
unfolding hex_to_u64
hex_to_u64-lt s n h =
    from_str_radix_16-lt (2 ^ 64) n (strip_0x s) (omega arith)
      (map_err-eq-inr malformed (from_str_radix_16 (2 ^ 64) (strip_0x s)) h)

pub hex_to_u128-lt : (s : List ℕ) (n : ℕ) → hex_to_u128 s ≡ inr n → n < 2 ^ 128
unfolding hex_to_u128
hex_to_u128-lt s n h =
    from_str_radix_16-lt (2 ^ 128) n (strip_0x s) (omega arith)
      (map_err-eq-inr malformed (from_str_radix_16 (2 ^ 128) (strip_0x s)) h)

slice_byte-ok : (b : Bool) (r : List ℕ ⊎ ℕ) {n : ℕ} → slice_byte b r ≡ ok n → r ≡ inr n
slice_byte-ok true r h = cc
slice_byte-ok false r h = cc

pub ok_inj : {E A : Type 0} {a b : A} → ok {E = E} a ≡ ok b → a ≡ b
ok_inj h = cc

parse_pairs-IsByte : (cs bs : List ℕ) → parse_pairs cs ≡ ok bs → All IsByte bs
unfolding parse_pairs
parse_pairs-IsByte [] bs h = subst (All IsByte) (ok_inj h) tt
parse_pairs-IsByte (a ∷ []) bs h = cc
parse_pairs-IsByte (a ∷ b ∷ cs) bs h =
    let byte_of =
      slice_byte (is_boundary (a ∷ []) && is_boundary cs) (from_str_radix_16 256 (a ∷ b ∷ [])) in
    let (n, e, e') = >>=-eq-ok byte_of (λ byte. parse_pairs cs >>= λ bytes. ok (byte ∷ bytes)) h in
    let (rest, r, r') = >>=-eq-ok (parse_pairs cs) (λ bytes. ok (n ∷ bytes)) e' in
    subst (All IsByte) (ok_inj r') (
      from_str_radix_16-lt 256 n (a ∷ b ∷ []) (omega arith) (
          slice_byte-ok (is_boundary (a ∷ []) && is_boundary cs)
            (from_str_radix_16 256 (a ∷ b ∷ [])) e),
      parse_pairs-IsByte cs rest r,
    )

or_malformed-ok : {A : Type 0} (m : Fallible (List ℕ) A) {a : A} → or_malformed m ≡ ok a → m ≡ ok a
or_malformed-ok panic h = cc
or_malformed-ok (value (inl e)) h = cc
or_malformed-ok (value (inr b)) h = cc

pub hex_to_bytes-IsByte : (s bs : List ℕ) → hex_to_bytes s ≡ ok bs → All IsByte bs
unfolding hex_to_bytes
hex_to_bytes-IsByte s bs h =
    parse_pairs-IsByte (pad_even (strip_0x s)) bs
      (or_malformed-ok (parse_pairs (pad_even (strip_0x s))) h)
