-- ===== src/Batch.antt =====
-- driftbrake-py/src/batch.rs: the sweep over a grid of parameters on a table of trades.
pub mod FirstHalt
use driftbrake.Base.{
  ℕ, ◌+◌, Bool, true, false, not, ◌&&◌, List, [], ◌∷◌, ◌++◌, Option, none, some, length, replicate,
  ◌==◌, if◌then◌else◌, Outcome, value, ◌>>=◌, Profile,
}
use driftbrake.Base.Int.{ℤ, pos, ◌+ℤ◌, ◌-ℤ◌, ltb_ℤ, arith_i128}
use driftbrake.Core.Types.{ReconcileHistory, RevertEvent, HaltDecision, continue, halt}
use driftbrake.Core.History.{new, append, record_revert}
use driftbrake.Float.{Floats}
use driftbrake.Reconcile.Config.{
  FastGuardConfig, SlowGuardConfig, ReconcilePolicy, policy_new, with_revert_burst,
}
use driftbrake.Reconcile.Policy.{evaluate}

pub record SweepResult (Float : Type 0) : Type 0 where
  pub fast_threshold : Float
  pub fast_window : ℕ
  pub slow_threshold : Float
  pub slow_window : ℕ
  pub revert_limit : ℕ
  pub total_halts : ℕ
  pub first_halt_index : Option ℕ
  pub total_drawdown_prevented : ℤ

-- The values of one index, the two gas columns with their defaults where they are shorter.
pub record Row : Type 0 where
  pub predicted : ℤ
  pub realized : ℤ
  pub is_revert : Bool
  pub gas_used : ℕ
  pub gas_price : ℕ

abbrev pub head_or : ℕ → List ℕ → ℕ
head_or default [] = default
head_or default (x ∷ xs) = x

abbrev pub tail : List ℕ → List ℕ
tail [] = []
tail (x ∷ xs) = xs

-- The rows of columns that passed the length check; where a column is too short there are no more.
unfoldable pub rows : List ℤ → List ℤ → List Bool → List ℕ → List ℕ → List Row
rows (p ∷ ps) (r ∷ rs) (b ∷ bs) gas_used gas_price =
    record {
      predicted = p;
      realized = r;
      is_revert = b;
      gas_used = head_or 21000 gas_used;
      gas_price = head_or 0 gas_price;
    }
    ∷ rows ps rs bs (tail gas_used) (tail gas_price)
rows [] rs bs gas_used gas_price = []
rows (p ∷ ps) [] bs gas_used gas_price = []
rows (p ∷ ps) (r ∷ rs) [] gas_used gas_price = []

-- The variables of the loop over the rows.
pub record Progress : Type 0 where
  pub history : ReconcileHistory
  pub total_halts : ℕ
  pub first_halt_index : Option ℕ
  pub total_drawdown : ℤ

abbrev pub start : Progress
start = record { history = new; total_halts = 0; first_halt_index = none; total_drawdown = pos 0 }

abbrev pub record_row : ℕ → Row → ReconcileHistory → ReconcileHistory
record_row i row history =
    if row.is_revert
    then record_revert history (record {
      tx_hash = replicate 32 0;
      block_number = i;
      reason = none;
      gas_used = row.gas_used;
      effective_gas_price = row.gas_price;
    })
    else append history (record { wei = row.predicted }) (record { wei = row.realized })

-- `if first_halt_index.is_none()`
abbrev pub first_or : ℕ → Option ℕ → Option ℕ
first_or i none = some i
first_or i (some k) = some k

-- The drawdown after a halt on a row.
abbrev pub add_drawdown : Profile → Row → ℤ → Outcome ℤ
add_drawdown profile row total =
    if not row.is_revert && ltb_ℤ row.realized row.predicted
    then (do
      deficit ← arith_i128 profile (row.predicted -ℤ row.realized)
      arith_i128 profile (total +ℤ deficit))
    else value total

-- `match policy.evaluate(&history)`
abbrev pub book_decision :
    {Float : Type 0} → Profile → ℕ → Row → Progress → HaltDecision Float → Outcome Progress
book_decision profile i row progress continue = value progress
book_decision profile i row progress (halt reason) = do
  total ← add_drawdown profile row progress.total_drawdown
  value (record progress {
    total_halts = progress.total_halts + 1;
    first_halt_index = first_or i progress.first_halt_index;
    total_drawdown = total;
  })

-- `PyResult`: the columns differ in length, or the results.
pub data SweepAnswer (Float : Type 0) : Type 0 where
  lengths_differ : SweepAnswer Float
  swept : List (SweepResult Float) → SweepAnswer Float

module _ (fl : Floats) (profile : Profile) where
  open fl use {Float, le}

  -- The loop from index `i`.
  unfoldable pub run_rows : ReconcilePolicy Float → ℕ → List Row → Progress → Outcome Progress
  run_rows policy i [] progress = value progress
  run_rows policy i (row ∷ rest) progress =
      let recorded : Progress = record progress { history = record_row i row progress.history } in
      evaluate fl profile policy recorded.history >>= λ decision.
      book_decision profile i row recorded decision >>= λ next. run_rows policy (i + 1) rest next

  -- The policy of one point of the grid.
  abbrev pub grid_policy : Float → Float → ℕ → Outcome (ReconcilePolicy Float)
  grid_policy fast_t slow_t rev_lim = do
    policy ←
        policy_new fl profile (record { threshold = fast_t; window = 3 })
          (record { threshold = slow_t; window = 20 })
    with_revert_burst policy (record { limit = rev_lim })

  unfoldable pub grid_point : List Row → Float → Float → ℕ → Outcome (SweepResult Float)
  grid_point table fast_t slow_t rev_lim = do
    policy ← grid_policy fast_t slow_t rev_lim
    final ← run_rows policy 0 table start
    value (record {
      fast_threshold = fast_t;
      fast_window = 3;
      slow_threshold = slow_t;
      slow_window = 20;
      revert_limit = rev_lim;
      total_halts = final.total_halts;
      first_halt_index = final.first_halt_index;
      total_drawdown_prevented = final.total_drawdown;
    })

  unfoldable pub over_limits :
      List Row → Float → Float → List ℕ → Outcome (List (SweepResult Float))
  over_limits table fast_t slow_t [] = value []
  over_limits table fast_t slow_t (rev_lim ∷ limits) = do
    result ← grid_point table fast_t slow_t rev_lim
    results ← over_limits table fast_t slow_t limits
    value (result ∷ results)

  -- `if fast_t >= slow_t { continue; }`
  unfoldable pub over_slow :
      List Row → Float → List Float → List ℕ → Outcome (List (SweepResult Float))
  over_slow table fast_t [] limits = value []
  over_slow table fast_t (slow_t ∷ slows) limits = do
    here ← (if le slow_t fast_t then value [] else over_limits table fast_t slow_t limits)
    results ← over_slow table fast_t slows limits
    value (here ++ results)

  unfoldable pub over_fast :
      List Row → List Float → List Float → List ℕ → Outcome (List (SweepResult Float))
  over_fast table [] slows limits = value []
  over_fast table (fast_t ∷ fasts) slows limits = do
    here ← over_slow table fast_t slows limits
    results ← over_fast table fasts slows limits
    value (here ++ results)

  unfoldable pub run_sweep_raw :
      List ℤ
      → List ℤ
      → List Bool
      → List ℕ
      → List ℕ
      → List Float
      → List Float
      → List ℕ
      → Outcome (SweepAnswer Float)
  run_sweep_raw predicted realized is_revert gas_used gas_price fasts slows limits =
      if (length realized == length predicted) && (length is_revert == length predicted)
      then (do
        results ←
            over_fast (rows predicted realized is_revert gas_used gas_price) fasts slows limits
        value (swept results))
      else value lengths_differ
