-- ===== src/Backend/Simulate.antt =====
-- revm-backend/src/backend.rs: `simulate`, once its permit is there.
use driftbrake.Base.{ℕ, List, ◌⊎◌, inl, inr, Outcome, value, panic}
use driftbrake.Core.Types.{RawSimOutput}
use driftbrake.Float.{Floats}
use driftbrake.Backend.{
  CandidateTx, BlockEnv, TxEnv, ExecutionResult, SimError, timed_out, backend, RevmBackend,
  sim_timeout, block_env, tx_env, convert_result,
}

-- The database factory, REVM with its specification pinned to `MERGE`, either of which may panic, and
-- the text of the runtime's `JoinError`.
pub record Vm (Factory : Type 0) : Type 1 where
  pub Db : Type 0
  pub fresh_db : Factory → Outcome (List ℕ ⊎ Db)
  pub transact : BlockEnv → TxEnv → Db → Outcome (List ℕ ⊎ ExecutionResult)
  pub join_error : List ℕ

-- Which of the blocking work and the timeout is over first.
pub data First : Type 0 where
  work deadline : First

module _ (fl : Floats) {Factory : Type 0} (vm : Vm Factory) where
  open vm use {Db, fresh_db, transact, join_error}

  abbrev pub converted : Outcome (List ℕ ⊎ ExecutionResult) → Outcome (SimError ⊎ RawSimOutput)
  converted panic = panic
  converted (value (inl e)) = value (inl (backend e))
  converted (value (inr result)) = value (inr (convert_result result))

  abbrev pub execute : BlockEnv → TxEnv → Outcome (List ℕ ⊎ Db) → Outcome (SimError ⊎ RawSimOutput)
  execute block tx panic = panic
  execute block tx (value (inl e)) = value (inl (backend e))
  execute block tx (value (inr db)) = converted (transact block tx db)

  -- The closure of `spawn_blocking`.
  unfoldable pub blocking_work :
      RevmBackend fl Factory → CandidateTx → Outcome (SimError ⊎ RawSimOutput)
  unfolding tx_env block_env
  blocking_work self tx =
      execute (block_env fl Factory self) (tx_env tx self.block.basefee) (fresh_db self.db_factory)

  abbrev pub joined : Outcome (SimError ⊎ RawSimOutput) → SimError ⊎ RawSimOutput
  joined panic = inl (backend join_error)
  joined (value inner) = inner

  abbrev pub awaited : First → RevmBackend fl Factory → CandidateTx → SimError ⊎ RawSimOutput
  awaited work self tx = joined (blocking_work self tx)
  awaited deadline self tx = inl (timed_out (sim_timeout fl Factory self))

  unfoldable pub simulate : First → RevmBackend fl Factory → CandidateTx → SimError ⊎ RawSimOutput
  unfolding blocking_work sim_timeout
  simulate first self tx = awaited first self tx
