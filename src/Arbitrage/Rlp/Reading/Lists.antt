-- ===== src/Arbitrage/Rlp/Reading/Lists.antt =====
-- examples/toy-arbitrage/src/rlp.rs: the encoder against a reader of a list of RLP strings.
use driftbrake.Base.{
  ℕ, zero, suc, ◌+◌, ◌-◌, ◌%◌, ◌^◌, ◌≤◌, ◌<◌, ◌≡◌, refl, sym, ap, ◌∙◌, inl, inr, true, false, List,
  [], ◌∷◌, ◌++◌, Option, none, some, length, map, All, ltb, if◌then◌else◌, arith, append-nil,
  length-append, Bool-cases,
}
use driftbrake.Base.Bytes.{to_be, of_be, length-to_be, of_be-to_be}
use driftbrake.Arbitrage.Rlp.{
  bytes, list, leading_zero_trim, encode_length_header, encode_list_header, is_single, encode_bytes,
  encode, encode_items, items_of,
}
use driftbrake.Arbitrage.Rlp.Reading.{
  split_at, split_long, starts_zero, starts_zero-leading_zero_trim, split_long_exact, read_string,
  split_exact, length-leading_zero_trim, of_be-leading_zero_trim, trim_some,
  read_string-encode_bytes,
}

-- The payload of a list item at the front of some bytes, and what follows it, from its shortest header.
abbrev pub read_list : List ℕ → Option (List ℕ × List ℕ)
read_list [] = none
read_list (b ∷ bs) =
    if ltb b 0xc0
    then none
    else if ltb b 0xf8
    then split_at (b - 0xc0) bs
    else split_long (b - 0xf7) bs

-- So many strings, and no byte after them.
abbrev pub and_strings : Option (List (List ℕ)) → List ℕ → Option (List (List ℕ))
and_strings none s = none
and_strings (some ss) s = some (s ∷ ss)

abbrev pub next_string :
    Option (List ℕ × List ℕ) → (List ℕ → Option (List (List ℕ))) → Option (List (List ℕ))
next_string none more = none
next_string (some (s, rest)) more = and_strings (more rest) s

unfoldable pub read_strings : ℕ → List ℕ → Option (List (List ℕ))
read_strings zero [] = some []
read_strings zero (b ∷ bs) = none
read_strings (suc n) bs = next_string (read_string bs) (λ rest. read_strings n rest)

long_list :
    (len bs rest : List ℕ)
    → length bs ≡ of_be len
    → starts_zero len ≡ false
    → 56 ≤ of_be len
    → 0 < length len
    → length len ≤ 8
    → read_list (((0xc0 + 55 + length len % 256) ∷ len) ++ (bs ++ rest)) ≡ some (bs, rest)
long_list len bs rest says canonical big positive short =
    let lists : ltb (0xc0 + 55 + length len % 256) 0xc0 ≡ false = ground arith in
    let long : ltb (0xc0 + 55 + length len % 256) 0xf8 ≡ false = ground arith in
    let width : 0xc0 + 55 + length len % 256 - 0xf7 ≡ length len = omega arith in
    rw (lists, long, width) (split_long_exact len bs rest says canonical big)

-- A payload of less than 2 ^ 64 bytes is read back from behind its header, whatever follows it.
pub read_list-encode_list_header :
    (bs rest : List ℕ)
    → length bs < 2 ^ 64
    → read_list (encode_list_header (length bs) ++ (bs ++ rest)) ≡ some (bs, rest)
unfolding encode_length_header encode_list_header
read_list-encode_list_header bs rest fits = elim (Bool-cases (ltb (length bs) 56)) [
  | inl short ↦
      let lists : ltb (0xc0 + length bs % 256) 0xc0 ≡ false = ground arith in
      let one : ltb (0xc0 + length bs % 256) 0xf8 ≡ true = ground (arith, short) in
      let width : 0xc0 + length bs % 256 - 0xc0 ≡ length bs = ground (arith, short) in
      rw (short, lists, one, width) (split_exact bs rest (length bs) refl)
  | inr long ↦
      let value : of_be (leading_zero_trim (to_be 8 (length bs))) ≡ length bs =
        of_be-leading_zero_trim (to_be 8 (length bs)) ∙ of_be-to_be 8 (length bs) (omega arith) in
      rw long (
        long_list (leading_zero_trim (to_be 8 (length bs))) bs rest (sym value)
          (starts_zero-leading_zero_trim (to_be 8 (length bs))) (ground (arith, long, value))
          (trim_some (to_be 8 (length bs))
            (ground (arith, long, of_be-to_be 8 (length bs) (omega arith))))
          (omega
            (arith, length-leading_zero_trim (to_be 8 (length bs)), length-to_be 8 (length bs))))
]

abbrev pub IsShort : List ℕ → Type 0
IsShort bs = length bs < 2 ^ 64

pub read_strings-encode_items :
    (ss : List (List ℕ))
    → All IsShort ss
    → read_strings (length ss) (encode_items (items_of (map bytes ss))) ≡ some ss
unfolding read_strings encode
read_strings-encode_items [] h = refl
read_strings-encode_items (s ∷ ss) h =
    rw
      (
        read_string-encode_bytes s (encode_items (items_of (map bytes ss))) h.0,
        read_strings-encode_items ss h.1,
      )
      refl

-- What the strings of a list take at most.
abbrev pub room : List (List ℕ) → ℕ
room [] = 0
room (s ∷ ss) = 9 + length s + room ss

length-encode_length_header : (len offset : ℕ) → length (encode_length_header len offset) ≤ 9
unfolding encode_length_header
length-encode_length_header len offset = elim (Bool-cases (ltb len 56)) [
  | inl short ↦ rw short (omega arith)
  | inr long ↦ rw long (omega (arith, length-leading_zero_trim (to_be 8 len), length-to_be 8 len))
]

length-encode_bytes : (s : List ℕ) → length (encode_bytes s) ≤ 9 + length s
unfolding encode_bytes
length-encode_bytes s = elim (Bool-cases (is_single s)) [
  | inl single ↦ rw single (omega arith)
  | inr longer ↦ rw longer (
      omega (
        arith,
        length-append (encode_length_header (length s) 0x80) s,
        length-encode_length_header (length s) 0x80,
      ))
]

length-encode_items :
    (ss : List (List ℕ)) → length (encode_items (items_of (map bytes ss))) ≤ room ss
unfolding encode
length-encode_items [] = omega arith
length-encode_items (s ∷ ss) = omega (
  arith,
  length-append (encode_bytes s) (encode_items (items_of (map bytes ss))),
  length-encode_bytes s,
  length-encode_items ss,
)

room-IsShort : (ss : List (List ℕ)) → room ss < 2 ^ 64 → All IsShort ss
room-IsShort [] h = tt
room-IsShort (s ∷ ss) h = (omega arith, room-IsShort ss (omega arith))

abbrev pub and_read : ℕ → Option (List ℕ × List ℕ) → Option (List (List ℕ))
and_read n none = none
and_read n (some (payload, [])) = read_strings n payload
and_read n (some (payload, b ∷ bs)) = none

-- A list of `n` strings that is all of the bytes.
abbrev pub read_list_of : ℕ → List ℕ → Option (List (List ℕ))
read_list_of n bs = and_read n (read_list bs)

-- A list of strings that take less than 2 ^ 64 bytes, encoded, is read back.
pub read_list_of-encode :
    (ss : List (List ℕ))
    → room ss < 2 ^ 64
    → read_list_of (length ss) (encode (list (items_of (map bytes ss)))) ≡ some ss
unfolding encode
read_list_of-encode ss h =
    let payload = encode_items (items_of (map bytes ss)) in
    let small : length payload < 2 ^ 64 = omega (arith, length-encode_items ss) in
    ap (λ (l : List ℕ). read_list_of (length ss) (encode_list_header (length payload) ++ l))
      (sym (append-nil payload))
    ∙ ap (and_read (length ss)) (read_list-encode_list_header payload [] small)
    ∙ read_strings-encode_items ss (room-IsShort ss h)
