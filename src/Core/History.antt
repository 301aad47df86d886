-- ===== src/Core/History.antt =====
-- core/src/types.rs: the operations of `ReconcileHistory`. `push_back` adds at the end of a list.
pub mod Timeline
pub mod Ratios
use driftbrake.Base.{
  ℕ, ◌+◌, ◌*◌, Bool, List, [], ◌∷◌, ◌++◌, map, reverse, filter, take, Outcome, value, ◌>>=◌,
  Profile,
}
use driftbrake.Base.Int.{ℤ, pos, ltb_ℤ, arith_u128}
use driftbrake.Core.Types.{
  PredictedProfit, RealizedProfit, RevertEvent, HistoryEntry, confirmed_pair, reverted_tx,
  ReconcileHistory,
}
use driftbrake.Float.{Floats}

abbrev pub Pair : Type 0
Pair = PredictedProfit × RealizedProfit

abbrev pub new : ReconcileHistory
new = record { timeline = []; pairs = []; reverts = [] }

unfoldable pub append : ReconcileHistory → PredictedProfit → RealizedProfit → ReconcileHistory
append h predicted realized = record h {
  timeline = h.timeline ++ (confirmed_pair predicted realized ∷ []);
  pairs = h.pairs ++ ((predicted, realized) ∷ []);
}

unfoldable pub record_revert : ReconcileHistory → RevertEvent → ReconcileHistory
record_revert h event = record h {
  timeline = h.timeline ++ (reverted_tx event ∷ []);
  reverts = h.reverts ++ (event ∷ []);
}

-- The loop over the timeline from its end, with the counter.
unfoldable pub count_reverts : List HistoryEntry → ℕ → ℕ
count_reverts [] count = count
count_reverts (reverted_tx event ∷ rest) count = count_reverts rest (count + 1)
count_reverts (confirmed_pair p r ∷ rest) count = count

unfoldable pub consecutive_reverts : ReconcileHistory → ℕ
consecutive_reverts h = count_reverts (reverse h.timeline) 0

-- `filter_map(..).sum()`: product and sum are `u128` operations.
unfoldable pub sum_gas : Profile → List HistoryEntry → ℕ → Outcome ℕ
sum_gas profile [] burned = value burned
sum_gas profile (reverted_tx event ∷ rest) burned = do
  cost ← arith_u128 profile (event.gas_used * event.effective_gas_price)
  total ← arith_u128 profile (burned + cost)
  sum_gas profile rest total
sum_gas profile (confirmed_pair p r ∷ rest) burned = sum_gas profile rest burned

unfoldable pub recent_revert_gas_burned : Profile → ReconcileHistory → ℕ → Outcome ℕ
recent_revert_gas_burned profile h window = sum_gas profile (take window (reverse h.timeline)) 0

-- `predicted.0 > 0`
abbrev pub is_valid : Pair → Bool
is_valid pair = ltb_ℤ (pos 0) pair.0.wei

module _ (fl : Floats) where
  open fl use {Float, of_i128, div}

  -- `realized.0 as f64 / predicted.0 as f64`
  unfoldable pub ratio : Pair → Float
  ratio pair = div (of_i128 pair.1.wei) (of_i128 pair.0.wei)

  unfoldable pub recent_ratios : ReconcileHistory → ℕ → List Float
  recent_ratios h n = reverse (map ratio (take n (filter is_valid (reverse h.pairs))))
