-- ===== src/Arbitrage/Rlp.antt =====
-- examples/toy-arbitrage/src/rlp.rs: the RLP encoder.
pub mod Reading
use driftbrake.Base.{
  ℕ, ◌+◌, ◌%◌, Bool, true, false, List, [], ◌∷◌, ◌++◌, length, ltb, ◌==◌, if◌then◌else◌,
}
use driftbrake.Base.Bytes.{to_be}

mutual
  pub data Item : Type 0 where
    bytes : List ℕ → Item
    list : Items → Item

  pub data Items : Type 0 where
    no_items : Items
    more : Item → Items → Items

unfoldable pub leading_zero_trim : List ℕ → List ℕ
leading_zero_trim [] = []
leading_zero_trim (b ∷ bs) = let rest = leading_zero_trim bs in if b == 0 then rest else b ∷ bs

abbrev pub big_uint_bytes : List ℕ → Item
big_uint_bytes bs = bytes (leading_zero_trim bs)

-- `Item::uint`, for a `u128`.
abbrev pub uint : ℕ → Item
uint v = big_uint_bytes (to_be 16 v)

-- `Item::address`
abbrev pub address : List ℕ → Item
address addr = bytes addr

-- `vec![..]` of items.
abbrev pub items_of : List Item → Items
items_of [] = no_items
items_of (item ∷ items) = more item (items_of items)

unfoldable pub encode_length_header : ℕ → ℕ → List ℕ
encode_length_header len offset =
    if ltb len 56
    then (offset + len % 256) ∷ []
    else (let len_bytes = leading_zero_trim (to_be 8 len) in
        (offset + 55 + length len_bytes % 256) ∷ len_bytes)

abbrev pub is_single : List ℕ → Bool
is_single [] = false
is_single (b ∷ []) = ltb b 0x80
is_single (b ∷ c ∷ bs) = false

unfoldable pub encode_bytes : List ℕ → List ℕ
encode_bytes bs = if is_single bs then bs else encode_length_header (length bs) 0x80 ++ bs

unfoldable pub encode_list_header : ℕ → List ℕ
encode_list_header len = encode_length_header len 0xc0

unfoldable mutual
  pub encode : Item → List ℕ
  encode (bytes bs) = encode_bytes bs
  encode (list items) =
      let payload = encode_items items in encode_list_header (length payload) ++ payload

  pub encode_items : Items → List ℕ
  encode_items no_items = []
  encode_items (more item items) = encode item ++ encode_items items
