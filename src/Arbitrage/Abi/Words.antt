-- ===== src/Arbitrage/Abi/Words.antt =====
-- Reading back the words that were encoded.
use driftbrake.Base.{
  ℕ, ◌+◌, ◌*◌, ◌^◌, ◌<◌, ◌≡◌, refl, sym, ap, ap₂, ◌∙◌, true, List, [], ◌++◌, some, length, take,
  replicate, leb, arith, length-append, length-replicate, take-append, drop-append, take_all,
  append-nil, ◌-◌,
}
use driftbrake.Base.Bytes.{to_be, of_be, slice, length-to_be, of_be-to_be}
use driftbrake.Core.Types.{RawSimOutput}
use driftbrake.Arbitrage.Abi.{encode_u256, decode_u256_word, both, decode_reserves}

length-encode_u256 : (v : ℕ) → length (encode_u256 v) ≡ 32
unfolding encode_u256
length-encode_u256 v = omega (
  arith,
  length-append (replicate 16 0) (to_be 16 v),
  length-replicate {A = ℕ} 16 0,
  length-to_be 16 v,
)

word_value : (v : ℕ) → v < 2 ^ 128 → of_be (slice 16 32 (encode_u256 v)) ≡ v
unfolding encode_u256
word_value v fits =
    ap (λ (l : List ℕ). of_be (take 16 l))
      (drop-append 16 (replicate 16 0) (to_be 16 v) (length-replicate {A = ℕ} 16 0))
    ∙ ap of_be (take_all 16 (to_be 16 v) (omega (arith, length-to_be 16 v)))
    ∙ of_be-to_be 16 v fits

-- A word after any whole number of words is read as its value, a `u128`, whatever follows it.
pub decode_u256_word-encode_u256 :
    (index v : ℕ) (front rest : List ℕ)
    → length front ≡ index * 32
    → v < 2 ^ 128
    → decode_u256_word (front ++ (encode_u256 v ++ rest)) index ≡ some v
unfolding decode_u256_word
decode_u256_word-encode_u256 index v front rest before fits =
    let enough : leb (index * 32 + 32) (length (front ++ (encode_u256 v ++ rest))) ≡ true = ground (
      arith,
      length-append front (encode_u256 v ++ rest),
      length-append (encode_u256 v) rest,
      length-encode_u256 v,
    ) in
    let width : index * 32 + 32 - index * 32 ≡ 32 = omega arith in
    rw (
      enough,
      width,
      drop-append (index * 32) front (encode_u256 v ++ rest) before,
      take-append 32 (encode_u256 v) rest (length-encode_u256 v),
      word_value v fits,
    )

-- Two words of return data, each of a `u128`, are read as the two reserves of the pool.
pub decode_reserves-encode_u256 :
    (raw : RawSimOutput) (r0 r1 : ℕ)
    → raw.return_data ≡ encode_u256 r0 ++ encode_u256 r1
    → r0 < 2 ^ 128
    → r1 < 2 ^ 128
    → decode_reserves raw ≡ some (record { reserve0 = r0; reserve1 = r1 })
unfolding decode_reserves
decode_reserves-encode_u256 raw r0 r1 content h0 h1 =
    let first : decode_u256_word (encode_u256 r0 ++ encode_u256 r1) 0 ≡ some r0 =
      decode_u256_word-encode_u256 0 r0 [] (encode_u256 r1) refl h0 in
    let second : decode_u256_word (encode_u256 r0 ++ encode_u256 r1) 1 ≡ some r1 =
      ap (λ (l : List ℕ). decode_u256_word (encode_u256 r0 ++ l) 1)
        (sym (append-nil (encode_u256 r1)))
      ∙ decode_u256_word-encode_u256 1 r1 (encode_u256 r0) [] (length-encode_u256 r0) h1 in
    ap₂ both (ap (λ (l : List ℕ). decode_u256_word l 0) content ∙ first)
      (ap (λ (l : List ℕ). decode_u256_word l 1) content ∙ second)
