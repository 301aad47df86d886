-- ===== src/Reconcile/Guards/Overflow.antt =====
-- The `i128` sums of the drawdown and the volume-weighted check: exact while the amounts are bounded,
-- and what a build with and without overflow checks does beyond.
use driftbrake.Base.{
  ℕ, ◌+◌, ◌*◌, ◌^◌, ◌≤◌, ◌<◌, ◌≡◌, ap, ◌∙◌, List, [], ◌∷◌, map, All, length, value, panic, Profile,
  debug, release, none, some, arith,
}
use driftbrake.Base.Int.{
  ℤ, pos, negsuc, ◌+ℤ◌, ◌-ℤ◌, abs, sum_ℤ, int_laws, arith_i128, arith_i128_fits, abs-IsI128, abs-+ℤ,
  abs--ℤ,
}
use driftbrake.Core.Types.{ReconcileHistory}
use driftbrake.Core.History.{Pair}
use driftbrake.Float.{Floats}
use driftbrake.Reconcile.Guards.{sum_i128, sum_deficit, check_drawdown}

-- Both amounts of a pair are at most `m` away from zero.
abbrev pub IsWithin : ℕ → Pair → Type 0
IsWithin m pair = (abs pair.0.wei ≤ m) × (abs pair.1.wei ≤ m)

abbrev pub deficit : Pair → ℤ
deficit pair = pair.0.wei -ℤ pair.1.wei

pub sum_i128_fits :
    (profile : Profile) (m : ℕ) (zs : List ℤ) (acc : ℤ)
    → All (λ z. abs z ≤ m) zs
    → abs acc + m * length zs < 2 ^ 127
    → sum_i128 profile zs acc ≡ value (acc +ℤ sum_ℤ zs)
unfolding sum_i128
sum_i128_fits profile m [] acc small fits =
    let e : acc ≡ acc +ℤ pos 0 = omega int_laws in ap value e
sum_i128_fits profile m (z ∷ zs) acc small fits =
    let next : abs (acc +ℤ z) ≤ abs acc + abs z = abs-+ℤ acc z in
    let room : m * length (z ∷ zs) ≡ m + m * length zs = omega arith in
    rw (arith_i128_fits profile (acc +ℤ z) (abs-IsI128 (acc +ℤ z) (omega arith))) (
      sum_i128_fits profile m zs (acc +ℤ z) small.1 (omega arith)
      ∙ (let e : acc +ℤ z +ℤ sum_ℤ zs ≡ acc +ℤ (z +ℤ sum_ℤ zs) = omega int_laws in ap value e))

pub sum_deficit_fits :
    (profile : Profile) (m : ℕ) (window : List Pair) (acc : ℤ)
    → All (IsWithin m) window
    → abs acc + 2 * m * length window < 2 ^ 127
    → sum_deficit profile window acc ≡ value (acc +ℤ sum_ℤ (map deficit window))
unfolding sum_deficit
sum_deficit_fits profile m [] acc small fits =
    let e : acc ≡ acc +ℤ pos 0 = omega int_laws in ap value e
sum_deficit_fits profile m (pair ∷ window) acc small fits =
    let z : ℤ = deficit pair in
    let size : abs (deficit pair) ≤ abs pair.0.wei + abs pair.1.wei =
      abs--ℤ pair.0.wei pair.1.wei in
    let next : abs (acc +ℤ deficit pair) ≤ abs acc + abs (deficit pair) =
      abs-+ℤ acc (deficit pair) in
    let room : 2 * m * length (pair ∷ window) ≡ 2 * m + 2 * m * length window = omega arith in
    let one : 2 * m ≤ 2 * m + 2 * m * length window = omega arith in
    rw
      (
        arith_i128_fits profile (deficit pair) (abs-IsI128 (deficit pair) (omega arith)),
        arith_i128_fits profile (acc +ℤ deficit pair)
            (abs-IsI128 (acc +ℤ deficit pair) (omega arith)),
      )
      (sum_deficit_fits profile m window (acc +ℤ deficit pair) small.1 (omega arith)
        ∙ (let e : acc +ℤ deficit pair +ℤ sum_ℤ (map deficit window)
                ≡ acc +ℤ (deficit pair +ℤ sum_ℤ (map deficit window)) =
              omega int_laws in
            ap value e))

-- One pair whose deficit is 2 ^ 127 or more, in a window of one, under any non-negative limit: with
-- overflow checks the drawdown check panics, and without them the deficit wraps to a negative
-- number and the check does not halt.
pub check_drawdown_overflow :
    (fl : Floats) (h : ReconcileHistory) (p r limit : ℕ)
    → h.pairs ≡ (record { wei = pos p }, record { wei = negsuc r }) ∷ []
    → p < 2 ^ 127
    → r < 2 ^ 127
    → 2 ^ 127 ≤ p + r + 1
    → (check_drawdown fl debug h (some (record { max_drawdown_limit = pos limit; window = 1 }))
        ≡ panic)
      × (check_drawdown fl release h (some (record { max_drawdown_limit = pos limit; window = 1 }))
          ≡ value none)
unfolding check_drawdown sum_deficit arith_i128 ◌+ℤ◌ ◌-ℤ◌
check_drawdown_overflow fl h p r limit e hp hr big = rw e (ground arith, ground arith)
