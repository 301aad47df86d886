-- ===== src/Arbitrage/Hex/RoundTrip.antt =====
-- examples/toy-arbitrage/src/rpc.rs: what the readers of hexadecimal text make of text that is
-- written, and of any other.
use driftbrake.Base.{
  ℕ, ◌/◌, ◌%◌, ◌<◌, ◌≡◌, refl, List, [], ◌∷◌, ◌++◌, inr, some, All, length, ◌==◌, arith, true,
  false,
}
use driftbrake.Base.Text.{codes}
use driftbrake.Base.Bytes.{IsByte}
use driftbrake.Arbitrage.Hex.{
  to_digit, is_boundary, hex_char, hex_encode, parse_digits, from_str_radix_16, parse_pairs,
  hex_to_bytes, ok,
}

pub to_digit-hex_char : (d : ℕ) → d < 16 → to_digit (hex_char d) ≡ some d
unfolding to_digit
to_digit-hex_char d h = ground arith

pub pair_lem :
    (b : ℕ) → b < 256 → from_str_radix_16 256 (hex_char (b / 16) ∷ hex_char (b % 16) ∷ []) ≡ inr b
unfolding from_str_radix_16 parse_digits
pair_lem b h =
    let plain : (hex_char (b / 16) == 43) ≡ false = ground arith in
    rw (plain, to_digit-hex_char (b / 16) (omega arith))
      (rw (to_digit-hex_char (b % 16) (omega arith)) (ground arith))

-- A character of ASCII cuts nothing.
pub hex_char-boundary : (d : ℕ) (cs : List ℕ) → d < 16 → is_boundary (hex_char d ∷ cs) ≡ true
hex_char-boundary d cs h = ground arith

pub encoded-boundary : (bs : List ℕ) → All IsByte bs → is_boundary (hex_encode bs) ≡ true
unfolding hex_encode
encoded-boundary [] h = refl
encoded-boundary (b ∷ bs) h =
    hex_char-boundary (b / 16) (hex_char (b % 16) ∷ hex_encode bs) (omega (arith, h.0))

pub parse_pairs-hex_encode : (bs : List ℕ) → All IsByte bs → parse_pairs (hex_encode bs) ≡ ok bs
unfolding parse_pairs hex_encode
parse_pairs-hex_encode [] h = refl
parse_pairs-hex_encode (b ∷ bs) h =
    rw
      (
        hex_char-boundary (b / 16) [] (omega (arith, h.0)),
        encoded-boundary bs h.1,
        pair_lem b h.0,
        parse_pairs-hex_encode bs h.1,
      )
      refl

even_length : (bs : List ℕ) → length (hex_encode bs) % 2 ≡ 0
unfolding hex_encode
even_length [] = refl
even_length (b ∷ bs) = omega (arith, even_length bs)

-- Bytes that are written in hexadecimal, with or without `0x` before them, are read back.
pub hex_to_bytes-hex_encode :
    (bs : List ℕ) → All IsByte bs → hex_to_bytes (codes "0x" ++ hex_encode bs) ≡ ok bs
unfolding hex_to_bytes
hex_to_bytes-hex_encode bs h =
    let plain : (length (hex_encode bs) % 2 == 1) ≡ false = ground (arith, even_length bs) in
    rw (plain, parse_pairs-hex_encode bs h)
