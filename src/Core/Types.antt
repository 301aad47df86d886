-- ===== src/Core/Types.antt =====
-- core/src/types.rs and core/src/error.rs: the data types. A byte string and a `String` are lists of
-- bytes, an array `[u8; n]` is such a list of length `n`, and `i128` is an integer in range.
use driftbrake.Base.{ℕ, List, Option}
use driftbrake.Base.Int.{ℤ}

pub record PredictedProfit : Type 0 where
  pub wei : ℤ

pub record RealizedProfit : Type 0 where
  pub wei : ℤ

pub record Log : Type 0 where
  pub address : List ℕ
  pub topics : List (List ℕ)
  pub payload : List ℕ

pub data TxStatus : Type 0 where
  confirmed reverted : TxStatus

pub record TxReceipt : Type 0 where
  pub tx_hash : List ℕ
  pub block_number : ℕ
  pub status : TxStatus
  pub gas_used : ℕ
  pub effective_gas_price : ℕ

pub record RawSimOutput : Type 0 where
  pub return_data : List ℕ
  pub gas_used : ℕ
  pub revert_reason : Option (List ℕ)
  pub logs : List Log

pub record RevertEvent : Type 0 where
  pub tx_hash : List ℕ
  pub block_number : ℕ
  pub reason : Option (List ℕ)
  pub gas_used : ℕ
  pub effective_gas_price : ℕ

pub data HistoryEntry : Type 0 where
  confirmed_pair : PredictedProfit → RealizedProfit → HistoryEntry
  reverted_tx : RevertEvent → HistoryEntry

-- The deques and the vector, oldest element first.
pub record ReconcileHistory : Type 0 where
  pub timeline : List HistoryEntry
  pub pairs : List (PredictedProfit × RealizedProfit)
  pub reverts : List RevertEvent

pub data DecodeError : Type 0 where
  reverted_call : DecodeError
  malformed_data : List ℕ → DecodeError
  missing_profit_event : DecodeError
  other : List ℕ → DecodeError

-- The parameter stands for `f64`.
pub data HaltReason (Float : Type 0) : Type 0 where
  fast_guard : (window : List Float) (threshold : Float) → HaltReason Float
  slow_guard : (mean_ratio : Float) (window_size : ℕ) (threshold : Float) → HaltReason Float
  revert_burst : (consecutive_reverts limit : ℕ) → HaltReason Float
  revert_gas_budget_exceeded : (gas_cost_burned budget_limit window : ℕ) → HaltReason Float
  volume_weighted_drift : (weighted_ratio threshold : Float) (window : ℕ) → HaltReason Float
  net_drawdown_exceeded : (net_slippage_loss max_drawdown_limit : ℤ) (window : ℕ) → HaltReason Float
  custom : List ℕ → HaltReason Float

pub data HaltDecision (Float : Type 0) : Type 0 where
  continue : HaltDecision Float
  halt : HaltReason Float → HaltDecision Float
