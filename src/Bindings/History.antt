-- ===== src/Bindings/History.antt =====
-- driftbrake-py/src/lib.rs: the class `ReconcileHistory` that Python sees.
use driftbrake.Base.{ℕ, List, ◌++◌, Option, Outcome, Profile, length}
use driftbrake.Base.Int.{ℤ}
use driftbrake.Base.Text.{codes, show_usize}
use driftbrake.Core.History.{
  new, append, record_revert, consecutive_reverts, recent_revert_gas_burned, recent_ratios,
}
use driftbrake.Float.{Floats}
use driftbrake.Bindings.{PyReconcileHistory}

abbrev pub py_new : PyReconcileHistory
py_new = record { inner = new }

unfoldable pub py_append : PyReconcileHistory → ℤ → ℤ → PyReconcileHistory
unfolding append
py_append self predicted_profit realized_profit = record {
  inner = append self.inner (record { wei = predicted_profit }) (record { wei = realized_profit });
}

unfoldable pub py_record_revert :
    PyReconcileHistory
    → (tx_hash : List ℕ) → (block_number gas_used effective_gas_price : ℕ)
    → (reason : Option (List ℕ)) → PyReconcileHistory
unfolding record_revert
py_record_revert self tx_hash block_number gas_used effective_gas_price reason = record {
  inner = record_revert self.inner (record {
    tx_hash = tx_hash;
    block_number = block_number;
    reason = reason;
    gas_used = gas_used;
    effective_gas_price = effective_gas_price;
  });
}

unfoldable pub py_recent_ratios : (fl : Floats) → PyReconcileHistory → ℕ → List (Floats.Float fl)
unfolding recent_ratios
py_recent_ratios fl self n = recent_ratios fl self.inner n

-- `__len__`
unfoldable pub py_len : PyReconcileHistory → ℕ
py_len self = length self.inner.pairs

unfoldable pub py_total_reverts : PyReconcileHistory → ℕ
py_total_reverts self = length self.inner.reverts

unfoldable pub py_consecutive_reverts : PyReconcileHistory → ℕ
unfolding consecutive_reverts
py_consecutive_reverts self = consecutive_reverts self.inner

unfoldable pub py_recent_revert_gas_burned : Profile → PyReconcileHistory → ℕ → Outcome ℕ
unfolding recent_revert_gas_burned
py_recent_revert_gas_burned profile self window = recent_revert_gas_burned profile self.inner window

-- `ReconcileHistory.__repr__`
unfoldable pub history_repr : PyReconcileHistory → List ℕ
unfolding consecutive_reverts show_usize
history_repr self =
    codes "ReconcileHistory(pairs="
    ++ show_usize (length self.inner.pairs)
    ++ codes ", reverts="
    ++ show_usize (length self.inner.reverts)
    ++ codes ", consecutive_reverts="
    ++ show_usize (consecutive_reverts self.inner)
    ++ codes ")"
