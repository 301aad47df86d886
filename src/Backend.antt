-- ===== src/Backend.antt =====
-- revm-backend/src: the inputs of a simulation, the environments that REVM is given, and what its result
-- becomes. A numeric or address type of the `revm` crate stands for the number or the bytes in it.
pub mod Simulate
pub mod Permits
pub mod Decoding
use driftbrake.Base.{
  ℕ, Bool, ◌&&◌, true, List, [], ◌∷◌, ◌++◌, map, Option, none, some, ltb, Outcome, value, ◌>>=◌,
  ◌>>◌, replicate,
}
use driftbrake.Base.Text.{codes}
use driftbrake.Core.Types.{Log, RawSimOutput}
use driftbrake.Float.{Floats}
use driftbrake.Reconcile.Config.{require}

pub record CandidateTx : Type 0 where
  pub caller : List ℕ
  pub to : List ℕ
  pub tx_value : ℕ
  pub payload : List ℕ
  pub gas_limit : ℕ

pub record BlockContext : Type 0 where
  pub number : ℕ
  pub timestamp : ℕ
  pub gas_limit : ℕ
  pub basefee : ℕ
  pub coinbase : List ℕ

-- The fields that the code sets.
pub record BlockEnv : Type 0 where
  pub number : ℕ
  pub coinbase : List ℕ
  pub timestamp : ℕ
  pub gas_limit : ℕ
  pub basefee : ℕ
  pub difficulty : ℕ
  pub prevrandao : Option (List ℕ)
  pub blob_excess_gas_and_price : Option ℕ

pub record TxEnv : Type 0 where
  pub caller : List ℕ
  pub gas_limit : ℕ
  pub gas_price : ℕ
  pub transact_to : List ℕ
  pub tx_value : ℕ
  pub payload : List ℕ
  pub nonce : Option ℕ
  pub chain_id : Option ℕ
  pub access_list : List (List ℕ)
  pub gas_priority_fee : Option ℕ
  pub blob_hashes : List (List ℕ)
  pub max_fee_per_blob_gas : Option ℕ

-- REVM's result: the reason of a halt as the text that `{:?}` prints for it.
pub data ExecutionResult : Type 0 where
  success : (gas_used : ℕ) (logs : List Log) (output : List ℕ) → ExecutionResult
  revert : (gas_used : ℕ) (output : List ℕ) → ExecutionResult
  evm_halt : (reason : List ℕ) (gas_used : ℕ) → ExecutionResult

-- core/src/error.rs: a boxed error is the text that it prints, and a duration is in milliseconds.
pub data SimError : Type 0 where
  timed_out : ℕ → SimError
  backend : List ℕ → SimError

module _ (fl : Floats) (Factory : Type 0) where
  open fl use {Float, of_nat, decimal, mul, lt, le, to_u64}

  -- The semaphore is the number of its permits here; `Permits` follows it.
  pub record RevmBackend : Type 0 where
    pub db_factory : Factory
    pub block : BlockContext
    pub block_time_ms : ℕ
    pub timeout_fraction : Float
    pub concurrency : ℕ

  unfoldable pub backend_new : Factory → BlockContext → ℕ → Float → ℕ → Outcome RevmBackend
  backend_new db_factory block block_time_ms timeout_fraction concurrency_limit =
      require (lt (decimal 0 1) timeout_fraction && le timeout_fraction (decimal 10 1))
      >> require (ltb 0 concurrency_limit)
      >> value (record {
        db_factory = db_factory;
        block = block;
        block_time_ms = block_time_ms;
        timeout_fraction = timeout_fraction;
        concurrency = concurrency_limit;
      })

  unfoldable pub sim_timeout : RevmBackend → ℕ
  sim_timeout self = to_u64 (mul (of_nat self.block_time_ms) self.timeout_fraction)

  unfoldable pub block_env : RevmBackend → BlockEnv
  block_env self = record {
    number = self.block.number;
    coinbase = self.block.coinbase;
    timestamp = self.block.timestamp;
    gas_limit = self.block.gas_limit;
    basefee = self.block.basefee;
    difficulty = 0;
    prevrandao = some (replicate 32 0);
    blob_excess_gas_and_price = none;
  }

unfoldable pub tx_env : CandidateTx → ℕ → TxEnv
tx_env tx basefee = record {
  caller = tx.caller;
  gas_limit = tx.gas_limit;
  gas_price = basefee;
  transact_to = tx.to;
  tx_value = tx.tx_value;
  payload = tx.payload;
  nonce = none;
  chain_id = none;
  access_list = [];
  gas_priority_fee = none;
  blob_hashes = [];
  max_fee_per_blob_gas = none;
}

unfoldable pub convert_log : Log → Log
convert_log log = record { address = log.address; topics = log.topics; payload = log.payload }

unfoldable pub convert_result : ExecutionResult → RawSimOutput
convert_result (success gas_used logs output) = record {
  return_data = output;
  gas_used = gas_used;
  revert_reason = none;
  logs = map convert_log logs;
}
convert_result (revert gas_used output) = record {
  return_data = output;
  gas_used = gas_used;
  revert_reason = some (codes "reverted");
  logs = [];
}
convert_result (evm_halt reason gas_used) = record {
  return_data = [];
  gas_used = gas_used;
  revert_reason = some (codes "halted: " ++ reason);
  logs = [];
}
