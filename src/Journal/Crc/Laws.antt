-- ===== src/Journal/Crc/Laws.antt =====
-- The checksum has 32 bits, and sees every change of one byte.
use mathlib.Core.List.{foldl, foldl-append}
use driftbrake.Base.{
  ℕ, zero, suc, ◌+◌, ◌*◌, ◌/◌, ◌^◌, ◌<◌, ◌≡◌, ◌≢◌, sym, ap, ◌∙◌, List, [], ◌∷◌, ◌++◌, All,
  All-append, ltb, if◌then◌else◌, bit_xor, arith,
}
use driftbrake.Base.Bits.{bit_xor-lt, bit_xor_top, bit_xor_cancel, bit_xor_comm, bit_and-one}
use driftbrake.Base.Bytes.{IsByte}
use driftbrake.Journal.Crc.{polynomial, crc_bit, crc_rounds, crc_byte, crc32}

abbrev pub IsU32 : ℕ → Type 0
IsU32 n = n < 2 ^ 32

crc_bit-IsU32 : (crc : ℕ) → IsU32 crc → IsU32 (crc_bit crc)
unfolding crc_bit
crc_bit-IsU32 crc h = ground (arith, bit_xor-lt 32 (crc / 2) polynomial (omega arith) (omega arith))

crc_rounds-IsU32 : (n crc : ℕ) → IsU32 crc → IsU32 (crc_rounds n crc)
unfolding crc_rounds
crc_rounds-IsU32 zero crc h = h
crc_rounds-IsU32 (suc n) crc h = crc_rounds-IsU32 n (crc_bit crc) (crc_bit-IsU32 crc h)

crc_byte-IsU32 : (crc byte : ℕ) → IsU32 crc → IsByte byte → IsU32 (crc_byte crc byte)
unfolding crc_byte
crc_byte-IsU32 crc byte h b =
    crc_rounds-IsU32 8 (bit_xor crc byte) (bit_xor-lt 32 crc byte h (omega arith))

register-IsU32 :
    (bytes : List ℕ) (crc : ℕ) → All IsByte bytes → IsU32 crc → IsU32 (foldl crc_byte crc bytes)
register-IsU32 [] crc b h = h
register-IsU32 (byte ∷ bytes) crc b h =
    register-IsU32 bytes (crc_byte crc byte) b.1 (crc_byte-IsU32 crc byte h b.0)

-- The checksum of a byte string fits the four bytes that a frame has for it.
pub crc32-IsU32 : (bytes : List ℕ) → All IsByte bytes → IsU32 (crc32 bytes)
unfolding crc32
crc32-IsU32 bytes b =
    bit_xor-lt 32 (foldl crc_byte 0xffff_ffff bytes) 0xffff_ffff
      (register-IsU32 bytes 0xffff_ffff b (omega arith)) (omega arith)

-- A round can be undone: the highest bit of the result tells which branch was taken.
undo_bit : ℕ → ℕ
undo_bit crc = if ltb crc (2 ^ 31) then crc * 2 else bit_xor crc polynomial * 2 + 1

undo_bit-crc_bit : (crc : ℕ) → IsU32 crc → undo_bit (crc_bit crc) ≡ crc
unfolding undo_bit crc_bit
undo_bit-crc_bit crc h = ground (
  arith,
  bit_and-one crc,
  bit_xor_top 31 (crc / 2) 0x6db8_8320 (omega arith) (omega arith),
  bit_xor_cancel 32 (crc / 2) polynomial (omega arith) (omega arith),
)

crc_bit_injective : (a b : ℕ) → IsU32 a → IsU32 b → crc_bit a ≡ crc_bit b → a ≡ b
crc_bit_injective a b ha hb e = sym (undo_bit-crc_bit a ha) ∙ ap undo_bit e ∙ undo_bit-crc_bit b hb

crc_rounds_injective : (n a b : ℕ) → IsU32 a → IsU32 b → crc_rounds n a ≡ crc_rounds n b → a ≡ b
unfolding crc_rounds
crc_rounds_injective zero a b ha hb e = e
crc_rounds_injective (suc n) a b ha hb e =
    crc_bit_injective a b ha hb
      (crc_rounds_injective n (crc_bit a) (crc_bit b) (crc_bit-IsU32 a ha) (crc_bit-IsU32 b hb) e)

xor_injective : (a b c : ℕ) → IsU32 a → IsU32 b → IsU32 c → bit_xor a c ≡ bit_xor b c → a ≡ b
xor_injective a b c ha hb hc e =
    sym (bit_xor_cancel 32 a c ha hc) ∙ ap (λ (t : ℕ). bit_xor t c) e ∙ bit_xor_cancel 32 b c hb hc

crc_byte_injective :
    (crc crc' byte : ℕ)
    → IsU32 crc
    → IsU32 crc'
    → IsByte byte
    → crc_byte crc byte ≡ crc_byte crc' byte
    → crc ≡ crc'
unfolding crc_byte
crc_byte_injective crc crc' byte h h' b e = xor_injective crc crc' byte h h' (omega arith) (
    crc_rounds_injective 8 (bit_xor crc byte) (bit_xor crc' byte)
      (bit_xor-lt 32 crc byte h (omega arith)) (bit_xor-lt 32 crc' byte h' (omega arith)) e)

-- Equal bytes after two registers keep them apart.
register_injective :
    (bytes : List ℕ) (crc crc' : ℕ)
    → All IsByte bytes
    → IsU32 crc
    → IsU32 crc'
    → foldl crc_byte crc bytes ≡ foldl crc_byte crc' bytes
    → crc ≡ crc'
register_injective [] crc crc' b h h' e = e
register_injective (byte ∷ bytes) crc crc' b h h' e = crc_byte_injective crc crc' byte h h' b.0 (
    register_injective bytes (crc_byte crc byte) (crc_byte crc' byte) b.1
      (crc_byte-IsU32 crc byte h b.0) (crc_byte-IsU32 crc' byte h' b.0) e)

bytes_differ :
    (crc x y : ℕ) → IsU32 crc → IsByte x → IsByte y → crc_byte crc x ≡ crc_byte crc y → x ≡ y
unfolding crc_byte
bytes_differ crc x y h bx by e = xor_injective x y crc (omega arith) (omega arith) h (
    bit_xor_comm 32 x crc (omega arith) h
    ∙ crc_rounds_injective 8 (bit_xor crc x) (bit_xor crc y) (bit_xor-lt 32 crc x h (omega arith))
        (bit_xor-lt 32 crc y h (omega arith)) e
    ∙ bit_xor_comm 32 crc y h (omega arith))

-- Two byte strings that differ in exactly one byte have different checksums.
pub crc32_one_byte :
    (front back : List ℕ) (x y : ℕ)
    → All IsByte front
    → All IsByte back
    → IsByte x
    → IsByte y
    → x ≢ y
    → crc32 (front ++ (x ∷ back)) ≢ crc32 (front ++ (y ∷ back))
unfolding crc32
crc32_one_byte front back x y bf bb bx by ne e = ne (
    bytes_differ before x y in_range bx by (
      register_injective back (crc_byte before x) (crc_byte before y) bb
        (crc_byte-IsU32 before x in_range bx) (crc_byte-IsU32 before y in_range by)
        (sym (foldl-append crc_byte 0xffff_ffff front (x ∷ back))
          ∙ xor_injective _ _ 0xffff_ffff
              (register-IsU32 (front ++ (x ∷ back)) 0xffff_ffff
                (All-append IsByte front (x ∷ back) bf (bx, bb)) (omega arith))
              (register-IsU32 (front ++ (y ∷ back)) 0xffff_ffff
                (All-append IsByte front (y ∷ back) bf (by, bb)) (omega arith))
              (omega arith) e
          ∙ foldl-append crc_byte 0xffff_ffff front (y ∷ back))))
  where
    before : ℕ
    before = foldl crc_byte 0xffff_ffff front

    in_range : IsU32 before
    in_range = register-IsU32 front 0xffff_ffff bf (omega arith)
