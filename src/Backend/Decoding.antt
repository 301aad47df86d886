-- ===== src/Backend/Decoding.antt =====
-- revm-backend/src/backend.rs with the decoder of examples/toy-arbitrage: which executions predict a
-- profit.
use driftbrake.Base.{
  ℕ, ◌≤◌, List, length, take, leb, leb→le, arith, Bool-cases, sym, ◌≡◌, refl, ap, ◌∙◌, Option, none,
  some, ◌⊎◌, inl, inr, Outcome, value, panic,
}
use driftbrake.Base.Int.{of_bits}
use driftbrake.Base.Bytes.{of_be, slice}
use driftbrake.Core.Types.{Log, RawSimOutput, PredictedProfit}
use driftbrake.Float.{Floats}
use driftbrake.Backend.{
  CandidateTx, ExecutionResult, success, revert, evm_halt, RevmBackend, block_env, tx_env,
  convert_result, SimError,
}
use driftbrake.Backend.Simulate.{
  Vm, First, work, deadline, converted, execute, joined, blocking_work, simulate,
}
use driftbrake.Arbitrage.Abi.{decode_u256_word}
use driftbrake.Arbitrage.Decoder.{decode_predicted, predicted_of}

module _ (fl : Floats) {Factory : Type 0} (vm : Vm Factory) where
  open vm use {Db, fresh_db, transact}

  -- The execution succeeded, its output has a first word of 32 bytes, and the profit is the last 16 bytes
  -- of that word read as a signed number.
  abbrev pub IsPredictedBy : PredictedProfit → Outcome (List ℕ ⊎ ExecutionResult) → Type 0
  IsPredictedBy p result =
      (gas_used : ℕ) × (logs : List Log) × (output : List ℕ) × (result
        ≡ value (inr (success gas_used logs output)))
      × (32 ≤ length output)
      × (p.wei ≡ of_bits (of_be (slice 16 32 (take 32 output))))

  some_inj : {a b : ℕ} → some a ≡ some b → a ≡ b
  some_inj e = cc

  first_word :
      (output : List ℕ) (bits : ℕ)
      → decode_u256_word output 0 ≡ some bits
      → (32 ≤ length output) × (of_be (slice 16 32 (take 32 output)) ≡ bits)
  unfolding decode_u256_word
  first_word output bits h = elim (Bool-cases (leb 32 (length output))) [
    | inl long ↦
        let same : some (of_be (slice 16 32 (take 32 output))) ≡ some bits = ground arith in
        (leb→le 32 (length output) long, some_inj same)
    | inr short ↦ absurd (ground arith)
  ]

  word_predicts :
      (gas_used : ℕ) (logs : List Log) (output : List ℕ) (p : PredictedProfit) (word : Option ℕ)
      → decode_u256_word output 0 ≡ word
      → predicted_of word ≡ inr p
      → IsPredictedBy p (value (inr (success gas_used logs output)))
  word_predicts gas_used logs output p none e h = cc
  word_predicts gas_used logs output p (some bits) e h =
      let (long, same) = first_word output bits e in
      let read : p.wei ≡ of_bits bits = cc in
      (gas_used, logs, output, refl, long, read ∙ ap of_bits (sym same))

  result_predicts :
      (result : ExecutionResult) (p : PredictedProfit)
      → decode_predicted (convert_result result) ≡ inr p
      → IsPredictedBy p (value (inr result))
  unfolding convert_result decode_predicted
  result_predicts (success gas_used logs output) p h =
      word_predicts gas_used logs output p (decode_u256_word output 0) refl h
  result_predicts (revert gas_used output) p h = cc
  result_predicts (evm_halt reason gas_used) p h = cc

  raw_inj : {a b : RawSimOutput} → ◌≡◌ {A = SimError ⊎ RawSimOutput} (inr a) (inr b) → a ≡ b
  raw_inj e = cc

  converted_predicts :
      (result : Outcome (List ℕ ⊎ ExecutionResult)) (raw : RawSimOutput) (p : PredictedProfit)
      → joined fl vm (converted fl vm result) ≡ inr raw
      → decode_predicted raw ≡ inr p
      → IsPredictedBy p result
  converted_predicts panic raw p e h = cc
  converted_predicts (value (inl error)) raw p e h = cc
  converted_predicts (value (inr result)) raw p e h =
      result_predicts result p (ap decode_predicted (raw_inj e) ∙ h)

  -- The database was there, and REVM ran on it.
  abbrev pub Ran :
      RevmBackend fl Factory → CandidateTx → PredictedProfit → Outcome (List ℕ ⊎ Db) → Type 0
  Ran self tx p db_result =
      (db : Db) × (db_result ≡ value (inr db))
      × IsPredictedBy p (transact (block_env fl Factory self) (tx_env tx self.block.basefee) db)

  executed_predicts :
      (self : RevmBackend fl Factory) (tx : CandidateTx) (db_result : Outcome (List ℕ ⊎ Db))
      (raw : RawSimOutput) (p : PredictedProfit)
      → joined fl vm
          (execute fl vm (block_env fl Factory self) (tx_env tx self.block.basefee) db_result)
        ≡ inr raw
      → decode_predicted raw ≡ inr p
      → Ran self tx p db_result
  executed_predicts self tx panic raw p e h = cc
  executed_predicts self tx (value (inl error)) raw p e h = cc
  executed_predicts self tx (value (inr db)) raw p e h = (
    db,
    refl,
    converted_predicts (transact (block_env fl Factory self) (tx_env tx self.block.basefee) db) raw
        p e h,
  )

  -- A simulation whose output is decoded to a predicted profit was not timed out: the factory gave a
  -- database, REVM ran the candidate on it in the backend's block and succeeded with an output of at least
  -- 32 bytes, and the profit is the low 128 bits, as a signed number, of the output's first word.
  pub simulate-decode_predicted :
      (first : First) (self : RevmBackend fl Factory) (tx : CandidateTx) (raw : RawSimOutput)
      (p : PredictedProfit)
      → simulate fl vm first self tx ≡ inr raw
      → decode_predicted raw ≡ inr p
      → (first ≡ work) × Ran self tx p (fresh_db self.db_factory)
  unfolding simulate blocking_work
  simulate-decode_predicted work self tx raw p e h =
      (refl, executed_predicts self tx (fresh_db self.db_factory) raw p e h)
  simulate-decode_predicted deadline self tx raw p e h = cc
