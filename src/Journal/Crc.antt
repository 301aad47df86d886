-- ===== src/Journal/Crc.antt =====
-- journal/src/lib.rs: `crc32`, bit by bit.
pub mod Laws
use mathlib.Core.List.{foldl}
use driftbrake.Base.{
  ℕ, zero, suc, ◌/◌, ◌%◌, List, [], ◌∷◌, ◌==◌, if◌then◌else◌, bit_and, bit_xor, ◌≡◌, refl,
}

abbrev pub polynomial : ℕ
polynomial = 0xedb8_8320

-- One round of the inner loop.
unfoldable pub crc_bit : ℕ → ℕ
crc_bit crc = if bit_and crc 1 == 0 then crc / 2 else bit_xor (crc / 2) polynomial

unfoldable pub crc_rounds : ℕ → ℕ → ℕ
crc_rounds zero crc = crc
crc_rounds (suc n) crc = crc_rounds n (crc_bit crc)

-- One round of the outer loop.
unfoldable pub crc_byte : ℕ → ℕ → ℕ
crc_byte crc byte = crc_rounds 8 (bit_xor crc byte)

unfoldable pub crc32 : List ℕ → ℕ
unfolding crc_byte crc_rounds crc_bit
crc32 bytes = bit_xor (foldl crc_byte 0xffff_ffff bytes) 0xffff_ffff

-- The check value of the CRC-32 of IEEE 802.3, over the text "123456789".
crc32_check : crc32 (49 ∷ 50 ∷ 51 ∷ 52 ∷ 53 ∷ 54 ∷ 55 ∷ 56 ∷ 57 ∷ []) ≡ 0xcbf4_3926
unfolding crc32
crc32_check = refl
