-- ===== src/Arbitrage/Rlp/Reading.antt =====
-- The encoder against a reader of RLP strings.
pub mod Lists
use driftbrake.Base.{
  ℕ, zero, suc, ◌+◌, ◌-◌, ◌%◌, ◌^◌, ◌≤◌, ◌<◌, ◌≡◌, refl, sym, ap, ◌∙◌, ◌⊎◌, inl, inr, Bool, true,
  false, List, [], ◌∷◌, ◌++◌, Option, none, some, length, take, drop, ltb, leb, ◌==◌, if◌then◌else◌,
  arith, append_assoc, length-append, take-append, drop-append, Bool-cases,
}
use driftbrake.Base.Bytes.{to_be, of_be, of_be_from, length-to_be, of_be-to_be}
use driftbrake.Arbitrage.Rlp.{
  leading_zero_trim, uint, encode_length_header, is_single, encode_bytes, encode,
}

-- The first `n` bytes and the rest, if there are so many.
abbrev pub split_at : ℕ → List ℕ → Option (List ℕ × List ℕ)
split_at n bs = if leb n (length bs) then some (take n bs, drop n bs) else none

abbrev pub starts_zero : List ℕ → Bool
starts_zero [] = false
starts_zero (b ∷ bs) = b == 0

-- A length of at least 56 in the first `n` bytes, without a leading zero, and then so many bytes.
abbrev pub split_long : ℕ → List ℕ → Option (List ℕ × List ℕ)
split_long n bs =
    if starts_zero (take n bs)
    then none
    else if ltb (of_be (take n bs)) 56
    then none
    else split_at (of_be (take n bs)) (drop n bs)

-- One byte below 0x80 may not have a header.
abbrev not_single : Option (List ℕ × List ℕ) → Option (List ℕ × List ℕ)
not_single none = none
not_single (some (bs, rest)) = if is_single bs then none else some (bs, rest)

-- A string item at the front of some bytes, as the RLP rules read it: a byte below 0x80 is itself, up to
-- 0xb7 the length is in the first byte, and up to 0xbf the first byte has the length of the length. Of the
-- ways to write a string only the shortest is read.
abbrev pub read_string : List ℕ → Option (List ℕ × List ℕ)
read_string [] = none
read_string (b ∷ bs) =
    if ltb b 0x80
    then some (b ∷ [], bs)
    else if ltb b 0xb8
    then not_single (split_at (b - 0x80) bs)
    else if ltb b 0xc0
    then split_long (b - 0xb7) bs
    else none

pub starts_zero-leading_zero_trim : (bs : List ℕ) → starts_zero (leading_zero_trim bs) ≡ false
unfolding leading_zero_trim
starts_zero-leading_zero_trim [] = refl
starts_zero-leading_zero_trim (b ∷ bs) = elim (Bool-cases (b == 0)) [
  | inl z ↦ rw z (starts_zero-leading_zero_trim bs)
  | inr nz ↦ rw nz nz
]

pub length-leading_zero_trim : (bs : List ℕ) → length (leading_zero_trim bs) ≤ length bs
unfolding leading_zero_trim
length-leading_zero_trim [] = omega arith
length-leading_zero_trim (b ∷ bs) = ground (arith, length-leading_zero_trim bs)

pub of_be-leading_zero_trim : (bs : List ℕ) → of_be (leading_zero_trim bs) ≡ of_be bs
unfolding leading_zero_trim of_be of_be_from
of_be-leading_zero_trim [] = refl
of_be-leading_zero_trim (zero ∷ bs) = of_be-leading_zero_trim bs
of_be-leading_zero_trim (suc b ∷ bs) = let e : (suc b == 0) ≡ false = ground arith in rw e

trim_some : (bs : List ℕ) → 0 < of_be bs → 0 < length (leading_zero_trim bs)
trim_some bs h = elim (trimmed bs) [
  | inl e ↦ absurd (omega (arith, sym (of_be-leading_zero_trim bs) ∙ ap of_be e, nothing))
  | inr long ↦ long
]
  where
    nothing : of_be [] ≡ 0
    nothing = unfold of_be of_be_from in refl

    trimmed : (bs : List ℕ) → (leading_zero_trim bs ≡ []) ⊎ (0 < length (leading_zero_trim bs))
    trimmed bs = cases (leading_zero_trim bs)
      where
        cases : (l : List ℕ) → (l ≡ []) ⊎ (0 < length l)
        cases [] = inl refl
        cases (x ∷ l) = inr (omega arith)

split_exact : (bs rest : List ℕ) (n : ℕ) → length bs ≡ n → split_at n (bs ++ rest) ≡ some (bs, rest)
split_exact bs rest n h =
    let enough : leb n (length (bs ++ rest)) ≡ true = ground (arith, length-append bs rest) in
    rw (enough, take-append n bs rest h, drop-append n bs rest h)

-- The bytes behind a length of at least 56, written without a leading zero.
pub split_long_exact :
    (len bs rest : List ℕ)
    → length bs ≡ of_be len
    → starts_zero len ≡ false
    → 56 ≤ of_be len
    → split_long (length len) (len ++ (bs ++ rest)) ≡ some (bs, rest)
split_long_exact len bs rest says canonical big =
    let enough : ltb (of_be len) 56 ≡ false = ground arith in
    rw
      (
        take-append (length len) len (bs ++ rest) refl,
        drop-append (length len) len (bs ++ rest) refl,
        canonical,
        enough,
      )
      (split_exact bs rest (of_be len) says)

-- The length header of a string of at least 56 bytes.
read_long :
    (len bs rest : List ℕ)
    → length bs ≡ of_be len
    → starts_zero len ≡ false
    → 56 ≤ of_be len
    → 0 < length len
    → length len ≤ 8
    → read_string (((0x80 + 55 + length len % 256) ∷ len) ++ (bs ++ rest)) ≡ some (bs, rest)
read_long len bs rest says canonical long positive short =
    let big : ltb (0x80 + 55 + length len % 256) 0x80 ≡ false = ground arith in
    let not_short : ltb (0x80 + 55 + length len % 256) 0xb8 ≡ false = ground arith in
    let string : ltb (0x80 + 55 + length len % 256) 0xc0 ≡ true = ground arith in
    let width : 0x80 + 55 + length len % 256 - 0xb7 ≡ length len = omega arith in
    rw (big, not_short, string, width) (split_long_exact len bs rest says canonical long)

read_header :
    (bs rest : List ℕ)
    → length bs < 2 ^ 64
    → is_single bs ≡ false
    → read_string (encode_length_header (length bs) 0x80 ++ (bs ++ rest)) ≡ some (bs, rest)
unfolding encode_length_header
read_header bs rest fits several = elim (Bool-cases (ltb (length bs) 56)) [
  | inl short ↦
      let single : ltb (0x80 + length bs % 256) 0x80 ≡ false = ground arith in
      let string : ltb (0x80 + length bs % 256) 0xb8 ≡ true = ground (arith, short) in
      let width : 0x80 + length bs % 256 - 0x80 ≡ length bs = ground (arith, short) in
      rw (short, single, string, width)
        (ap not_single (split_exact bs rest (length bs) refl) ∙ rw several refl)
  | inr long ↦
      let value : of_be (leading_zero_trim (to_be 8 (length bs))) ≡ length bs =
        of_be-leading_zero_trim (to_be 8 (length bs)) ∙ of_be-to_be 8 (length bs) (omega arith) in
      rw long (
        read_long (leading_zero_trim (to_be 8 (length bs))) bs rest (sym value)
          (starts_zero-leading_zero_trim (to_be 8 (length bs))) (ground (arith, long, value))
          (trim_some (to_be 8 (length bs))
            (ground (arith, long, of_be-to_be 8 (length bs) (omega arith))))
          (omega
            (arith, length-leading_zero_trim (to_be 8 (length bs)), length-to_be 8 (length bs))))
]

single_lem : (bs rest : List ℕ) → is_single bs ≡ true → read_string (bs ++ rest) ≡ some (bs, rest)
single_lem [] rest h = absurd (cc)
single_lem (b ∷ []) rest h = rw h
single_lem (b ∷ c ∷ bs) rest h = absurd (cc)

-- A string of less than 2 ^ 64 bytes, encoded, is read back, whatever follows it.
pub read_string-encode_bytes :
    (bs rest : List ℕ)
    → length bs < 2 ^ 64
    → read_string (encode_bytes bs ++ rest) ≡ some (bs, rest)
unfolding encode_bytes
read_string-encode_bytes bs rest fits = elim (Bool-cases (is_single bs)) [
  | inl single ↦ rw single (single_lem bs rest single)
  | inr longer ↦ rw longer (
      ap read_string (append_assoc (encode_length_header (length bs) 0x80) bs rest)
      ∙ read_header bs rest fits longer)
]
