-- ===== src/Arbitrage/Hex.antt =====
-- examples/toy-arbitrage/src/rpc.rs: hexadecimal text. A `&str` is the list of its UTF-8 bytes, which
-- a slice may not cut inside a character; `from_str_radix` is that of the standard library's integers.
pub mod RoundTrip
pub mod Numbers
pub mod Bounds
use driftbrake.Base.{
  ℕ, zero, suc, ◌+◌, ◌-◌, ◌*◌, ◌/◌, ◌%◌, ◌^◌, Bool, true, false, not, ◌&&◌, ◌||◌, Option, none,
  some, List, [], ◌∷◌, ◌++◌, ◌⊎◌, inl, inr, length, ltb, leb, ◌==◌, if◌then◌else◌, Outcome, value,
  panic,
}
use driftbrake.Base.Text.{codes}

pub data RpcError : Type 0 where
  transport : List ℕ → RpcError
  rpc : List ℕ → RpcError
  malformed : List ℕ → RpcError

-- A result of the program that may also panic, and its `?`.
abbrev pub Fallible : Type 0 → Type 0 → Type 0
Fallible E A = Outcome (E ⊎ A)

infixl 5 ◌>>=◌
abbrev pub ◌>>=◌ : {E A B : Type 0} → Fallible E A → (A → Fallible E B) → Fallible E B
value (inl e) >>= f = value (inl e)
value (inr a) >>= f = f a
panic >>= f = panic

abbrev pub ok : {E A : Type 0} → A → Fallible E A
ok a = value (inr a)

abbrev pub err : {E A : Type 0} → E → Fallible E A
err e = value (inl e)

-- `map_err`
abbrev pub map_err : {E F A : Type 0} → (E → F) → E ⊎ A → F ⊎ A
map_err f (inl e) = inl (f e)
map_err f (inr a) = inr a

-- `to_digit(16)`
unfoldable pub to_digit : ℕ → Option ℕ
to_digit c =
    if leb 48 c && ltb c 58
    then some (c - 48)
    else if leb 97 c && ltb c 103
    then some (c - 87)
    else if leb 65 c && ltb c 71
    then some (c - 55)
    else none

abbrev pub invalid_digit : List ℕ
invalid_digit = codes "invalid digit found in string"

abbrev pub empty_integer : List ℕ
empty_integer = codes "cannot parse integer from empty string"

abbrev pub too_large : List ℕ
too_large = codes "number too large to fit in target type"

-- One digit: an invalid one is reported before an overflow.
abbrev pub add_digit : ℕ → ℕ → Option ℕ → List ℕ ⊎ ℕ
add_digit limit acc none = inl invalid_digit
add_digit limit acc (some d) =
    if ltb (acc * 16 + d) limit then inr (acc * 16 + d) else inl too_large

abbrev pub and_then : List ℕ ⊎ ℕ → (ℕ → List ℕ ⊎ ℕ) → List ℕ ⊎ ℕ
and_then (inl e) f = inl e
and_then (inr n) f = f n

unfoldable pub parse_digits : ℕ → ℕ → List ℕ → List ℕ ⊎ ℕ
parse_digits limit acc [] = inr acc
parse_digits limit acc (c ∷ cs) =
    and_then (add_digit limit acc (to_digit c)) (λ n. parse_digits limit n cs)

abbrev pub parse_signed : ℕ → ℕ → List ℕ → List ℕ ⊎ ℕ
parse_signed limit c [] = parse_digits limit 0 (c ∷ [])
parse_signed limit c (d ∷ cs) =
    if c == 43 then parse_digits limit 0 (d ∷ cs) else parse_digits limit 0 (c ∷ d ∷ cs)

-- `from_str_radix(s, 16)` for the unsigned type whose values are below `limit`: one leading `+` is
-- allowed before a digit.
unfoldable pub from_str_radix_16 : ℕ → List ℕ → List ℕ ⊎ ℕ
from_str_radix_16 limit [] = inl empty_integer
from_str_radix_16 limit (c ∷ cs) = parse_signed limit c cs

abbrev pub drop_prefix : ℕ → ℕ → List ℕ → List ℕ
drop_prefix c d cs = if (c == 48) && (d == 120) then cs else c ∷ d ∷ cs

-- `s.strip_prefix("0x").unwrap_or(s)`
abbrev pub strip_0x : List ℕ → List ℕ
strip_0x [] = []
strip_0x (c ∷ []) = c ∷ []
strip_0x (c ∷ d ∷ cs) = drop_prefix c d cs

abbrev pub is_boundary : List ℕ → Bool
is_boundary [] = true
is_boundary (c ∷ cs) = not (leb 0x80 c && ltb c 0xc0)

abbrev pub slice_byte : Bool → List ℕ ⊎ ℕ → Fallible (List ℕ) ℕ
slice_byte true byte = value byte
slice_byte false byte = panic

-- `(0..s.len()).step_by(2)`: each pair of bytes, until the first that is no number. A last byte
-- without a partner is a slice out of range.
unfoldable pub parse_pairs : List ℕ → Fallible (List ℕ) (List ℕ)
parse_pairs [] = ok []
parse_pairs (a ∷ []) = panic
parse_pairs (a ∷ b ∷ cs) =
    slice_byte (is_boundary (a ∷ []) && is_boundary cs) (from_str_radix_16 256 (a ∷ b ∷ []))
    >>= λ byte. parse_pairs cs >>= λ bytes. ok (byte ∷ bytes)

abbrev pub or_malformed : {A : Type 0} → Fallible (List ℕ) A → Fallible RpcError A
or_malformed panic = panic
or_malformed (value r) = value (map_err malformed r)

abbrev pub pad_even : List ℕ → List ℕ
pad_even s = if length s % 2 == 1 then 48 ∷ s else s

unfoldable pub hex_to_bytes : List ℕ → Fallible RpcError (List ℕ)
unfolding parse_pairs
hex_to_bytes s = or_malformed (parse_pairs (pad_even (strip_0x s)))

unfoldable pub hex_to_u128 : List ℕ → RpcError ⊎ ℕ
unfolding from_str_radix_16
hex_to_u128 s = map_err malformed (from_str_radix_16 (2 ^ 128) (strip_0x s))

unfoldable pub hex_to_u64 : List ℕ → RpcError ⊎ ℕ
unfolding from_str_radix_16
hex_to_u64 s = map_err malformed (from_str_radix_16 (2 ^ 64) (strip_0x s))

-- `U256::from_str_radix(_, 16)` is the `ruint` crate's: a parameter.
module _ (parse_u256 : List ℕ → List ℕ ⊎ ℕ) where
  abbrev pub hex_or_zero : List ℕ → RpcError ⊎ ℕ
  hex_or_zero [] = inr 0
  hex_or_zero (c ∷ cs) = map_err malformed (parse_u256 (c ∷ cs))

  unfoldable pub hex_to_u256 : List ℕ → RpcError ⊎ ℕ
  hex_to_u256 s = hex_or_zero (strip_0x s)

abbrev pub hex_char : ℕ → ℕ
hex_char d = if ltb d 10 then 48 + d else 87 + d

-- `hex::encode`: `{b:02x}` for each byte.
unfoldable pub hex_encode : List ℕ → List ℕ
hex_encode [] = []
hex_encode (b ∷ bs) = hex_char (b / 16) ∷ hex_char (b % 16) ∷ hex_encode bs

unfoldable pub address_hex : List ℕ → List ℕ
unfolding hex_encode
address_hex addr = codes "0x" ++ hex_encode addr

-- `{:x}` of an unsigned integer: one digit a step.
unfoldable pub lower_hex_from : ℕ → ℕ → List ℕ
lower_hex_from zero n = hex_char (n % 16) ∷ []
lower_hex_from (suc fuel) n =
    let front = lower_hex_from fuel (n / 16) in
    if ltb n 16 then hex_char n ∷ [] else front ++ (hex_char (n % 16) ∷ [])

-- 32 digits are enough for a `u128`.
unfoldable pub lower_hex : ℕ → List ℕ
lower_hex n = lower_hex_from 31 n
