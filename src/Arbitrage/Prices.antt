-- ===== src/Arbitrage/Prices.antt =====
-- examples/toy-arbitrage/src/pools.rs: spot prices and their divergence.
use driftbrake.Base.{◌≡◌, sym, ap₂, ◌⊎◌, inl, inr, true, if◌then◌else◌}
use driftbrake.Float.{Floats, FloatLaws}
use driftbrake.Arbitrage.Abi.{PoolReserves}

module _ (fl : Floats) where
  open fl use {Float, of_nat, sub, div, lt}

  abbrev pub price_token0_in_token1 : PoolReserves → Float
  price_token0_in_token1 pool = div (of_nat pool.reserve1) (of_nat pool.reserve0)

  abbrev pub relative_gap : Float → Float → Float
  relative_gap low high = div (sub high low) low

  unfoldable pub price_divergence : PoolReserves → PoolReserves → Float
  price_divergence a b =
      let pa = price_token0_in_token1 a in
      let pb = price_token0_in_token1 b in
      if lt pa pb then relative_gap pa pb else relative_gap pb pa

  -- The prices are equal, or one is below the other, as two numbers are unless one is NaN.
  abbrev pub IsComparable : PoolReserves → PoolReserves → Type 0
  IsComparable a b =
      (price_token0_in_token1 a ≡ price_token0_in_token1 b)
      ⊎ ((lt (price_token0_in_token1 a) (price_token0_in_token1 b) ≡ true)
          ⊎ (lt (price_token0_in_token1 b) (price_token0_in_token1 a) ≡ true))

  -- Where the prices of two pools can be compared, their divergence does not depend on the order of the
  -- pools. The one law of floats used: x < y excludes y < x.
  pub price_divergence_comm :
      (laws : FloatLaws fl) (a b : PoolReserves)
      → IsComparable a b
      → price_divergence a b ≡ price_divergence b a
  unfolding price_divergence
  price_divergence_comm laws a b (inl same) =
      ap₂ (λ (pa pb : Float). if lt pa pb then relative_gap pa pb else relative_gap pb pa) same
        (sym same)
  price_divergence_comm laws a b (inr (inl less)) =
      rw (less, laws.lt_asym (price_token0_in_token1 a) (price_token0_in_token1 b) less)
  price_divergence_comm laws a b (inr (inr less)) =
      rw (less, laws.lt_asym (price_token0_in_token1 b) (price_token0_in_token1 a) less)
