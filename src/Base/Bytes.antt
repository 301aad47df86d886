-- ===== src/Base/Bytes.antt =====
-- Byte strings as lists of numbers below 256: `to_be_bytes`, `from_be_bytes`, slices.
use Prim.Native.Nat.{ℕ, zero, suc, ◌+◌, ◌-◌, ◌*◌, ◌/◌, ◌%◌, ◌^◌, ◌<◌}
use mathlib.Core.Path.{◌≡◌, refl, ap, ◌∙◌}
use mathlib.Core.List.{List, [], ◌∷◌, ◌++◌}
use native.Mathlib.Nat.{pow-suc}
use native.Mathlib.Omega.{arith}
use driftbrake.Base.Lists.{length, take, drop, All, length-append, All-append}

abbrev pub IsByte : ℕ → Type 0
IsByte b = b < 256

-- `v.to_be_bytes()` for an unsigned type of `n` bytes.
unfoldable pub to_be : ℕ → ℕ → List ℕ
to_be zero v = []
to_be (suc n) v = to_be n (v / 256) ++ (v % 256 ∷ [])

unfoldable pub of_be_from : ℕ → List ℕ → ℕ
of_be_from acc [] = acc
of_be_from acc (b ∷ bytes) = of_be_from (acc * 256 + b) bytes

-- `from_be_bytes`
unfoldable pub of_be : List ℕ → ℕ
unfolding of_be_from
of_be bytes = of_be_from 0 bytes

-- `bytes[from..to]`
abbrev pub slice : ℕ → ℕ → List ℕ → List ℕ
slice from to bytes = take (to - from) (drop from bytes)

pub length-to_be : (n v : ℕ) → length (to_be n v) ≡ n
unfolding to_be
length-to_be zero v = refl
length-to_be (suc n) v =
    omega (arith, length-append (to_be n (v / 256)) (v % 256 ∷ []), length-to_be n (v / 256))

pub to_be-IsByte : (n v : ℕ) → All IsByte (to_be n v)
unfolding to_be
to_be-IsByte zero v = tt
to_be-IsByte (suc n) v =
    All-append IsByte (to_be n (v / 256)) (v % 256 ∷ []) (to_be-IsByte n (v / 256))
      (omega arith, tt)

of_be_from-snoc :
    (acc b : ℕ) (bytes : List ℕ)
    → of_be_from acc (bytes ++ (b ∷ [])) ≡ of_be_from acc bytes * 256 + b
unfolding of_be_from
of_be_from-snoc acc b [] = refl
of_be_from-snoc acc b (x ∷ bytes) = of_be_from-snoc (acc * 256 + x) b bytes

pub of_be-to_be : (n v : ℕ) → v < 256 ^ n → of_be (to_be n v) ≡ v
unfolding of_be to_be
of_be-to_be zero v h = omega arith
of_be-to_be (suc n) v h =
    of_be_from-snoc 0 (v % 256) (to_be n (v / 256))
    ∙ ap (λ (t : ℕ). t * 256 + v % 256) (of_be-to_be n (v / 256) (omega (arith, pow-suc 256 n)))
    ∙ omega arith
