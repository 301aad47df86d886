-- ===== src/Batch/FirstHalt.antt =====
-- The loop over the rows against the loop of benchmark/src/sweep.rs.
use driftbrake.Base.{
  ℕ, ◌+◌, ◌≡◌, refl, sym, ap, ◌∙◌, false, List, [], ◌∷◌, map, Option, none, some, value,
  >>=-eq-value, Profile, All,
}
use driftbrake.Core.Types.{ReconcileHistory, HaltReason, HaltDecision, continue, halt}
use driftbrake.Core.History.{Pair, append}
use driftbrake.Float.{Floats}
use driftbrake.Reconcile.Config.{ReconcilePolicy}
use driftbrake.Reconcile.Policy.{evaluate}
use driftbrake.Benchmark.Sweep.{run_from, run_to_first_halt}
use driftbrake.Batch.{
  Row, Progress, start, record_row, first_or, add_drawdown, book_decision, run_rows,
}

-- The pair of a row that is no revert.
abbrev pub pair_of : Row → Pair
pair_of row = (record { wei = row.predicted }, record { wei = row.realized })

abbrev pub IsConfirmedRow : Row → Type 0
IsConfirmedRow row = row.is_revert ≡ false

-- The time that `run_to_first_halt` reports for an index.
abbrev pub from_one : Option ℕ → Option ℕ
from_one none = none
from_one (some i) = some (i + 1)

value_injective {ℓ} : {A : Type ℓ} {a b : A} → value a ≡ value b → a ≡ b
value_injective e = cc

decision-first :
    {Float : Type 0} (profile : Profile) (i : ℕ) (row : Row) (progress next : Progress)
    (reason : HaltReason Float)
    → book_decision profile i row progress (halt reason) ≡ value next
    → next.first_halt_index ≡ first_or i progress.first_halt_index
decision-first profile i row progress next reason e =
    let (total, booked, made) =
      >>=-eq-value (add_drawdown profile row progress.total_drawdown) _ e in
    ap (λ (p : Progress). p.first_halt_index) (sym (value_injective made))

decision_keeps :
    {Float : Type 0} (profile : Profile) (i k : ℕ) (row : Row) (progress next : Progress)
    (decision : HaltDecision Float)
    → progress.first_halt_index ≡ some k
    → book_decision profile i row progress decision ≡ value next
    → next.first_halt_index ≡ some k
decision_keeps profile i k row progress next continue kept e =
    ap (λ (p : Progress). p.first_halt_index) (sym (value_injective e)) ∙ kept
decision_keeps profile i k row progress next (halt reason) kept e =
    decision-first profile i row progress next reason e ∙ ap (first_or i) kept

module _ (fl : Floats) (profile : Profile) (policy : ReconcilePolicy (Floats.Float fl)) where
  open fl use {Float}

  -- A first halt that was found stays.
  first_halt_kept :
      (table : List Row) (i k : ℕ) (progress final : Progress)
      → progress.first_halt_index ≡ some k
      → run_rows fl profile policy i table progress ≡ value final
      → final.first_halt_index ≡ some k
  unfolding run_rows
  first_halt_kept [] i k progress final kept e =
      ap (λ (p : Progress). p.first_halt_index) (sym (value_injective e)) ∙ kept
  first_halt_kept (row ∷ table) i k progress final kept e =
      let recorded : Progress = record progress { history = record_row i row progress.history } in
      let (decision, decided, booked) =
        >>=-eq-value (evaluate fl profile policy recorded.history) _ e in
      let (next, made, later) =
        >>=-eq-value (book_decision profile i row recorded decision) _ booked in
      first_halt_kept table (i + 1) k next final
        (decision_keeps profile i k row recorded next decision kept made) later

  record_row-append :
      (i : ℕ) (row : Row) (history : ReconcileHistory)
      → IsConfirmedRow row
      → record_row i row history ≡ append history (pair_of row).0 (pair_of row).1
  record_row-append i row history is_pair = rw is_pair refl

  first_halt_step :
      (row : Row) (rest : List Row) (i : ℕ) (progress next final : Progress)
      (history : ReconcileHistory) (decision : HaltDecision Float)
      → progress.first_halt_index ≡ none
      → history ≡ append progress.history (pair_of row).0 (pair_of row).1
      → evaluate fl profile policy history ≡ value decision
      → book_decision profile i row (record progress { history = history }) decision ≡ value next
      → run_rows fl profile policy (i + 1) rest next ≡ value final
      → (next.first_halt_index ≡ none
          → run_from fl profile policy next.history (i + 1) (map pair_of rest)
            ≡ value (from_one final.first_halt_index))
      → run_from fl profile policy progress.history i (pair_of row ∷ map pair_of rest)
        ≡ value (from_one final.first_halt_index)
  unfolding run_from
  first_halt_step row rest i progress next final history continue fresh same decided made later
        others =
      let agreed = ap (evaluate fl profile policy) (sym same) ∙ decided in
      rw agreed (
        ap (λ (h : ReconcileHistory). run_from fl profile policy h (i + 1) (map pair_of rest))
          (sym same ∙ ap (λ (p : Progress). p.history) (value_injective made))
        ∙ others (ap (λ (p : Progress). p.first_halt_index) (sym (value_injective made)) ∙ fresh))
  first_halt_step row rest i progress next final history (halt reason) fresh same decided made later
        others =
      let agreed = ap (evaluate fl profile policy) (sym same) ∙ decided in
      let found : next.first_halt_index ≡ some i =
        decision-first profile i row _ next reason made ∙ ap (first_or i) fresh in
      rw agreed (
        ap (λ (o : Option ℕ). value (from_one o))
          (sym (first_halt_kept rest (i + 1) i next final found later)))

  first_halt_from :
      (table : List Row) (i : ℕ) (progress final : Progress)
      → All IsConfirmedRow table
      → progress.first_halt_index ≡ none
      → run_rows fl profile policy i table progress ≡ value final
      → run_from fl profile policy progress.history i (map pair_of table)
        ≡ value (from_one final.first_halt_index)
  unfolding run_rows run_from
  first_halt_from [] i progress final confirmed fresh e =
      ap (λ (o : Option ℕ). value (from_one o))
        (sym fresh ∙ ap (λ (p : Progress). p.first_halt_index) (value_injective e))
  first_halt_from (row ∷ rest) i progress final confirmed fresh e =
      let recorded : Progress = record progress { history = record_row i row progress.history } in
      let (decision, decided, booked) =
        >>=-eq-value (evaluate fl profile policy recorded.history) _ e in
      let (next, made, later) =
        >>=-eq-value (book_decision profile i row recorded decision) _ booked in
      first_halt_step row rest i progress next final recorded.history decision fresh
        (record_row-append i row progress.history confirmed.0) decided made later
        (λ none_yet. first_halt_from rest (i + 1) next final confirmed.1 none_yet later)

  -- On a table without reverts, whatever its gas columns, where the loop of `run_sweep_raw` ends without
  -- a panic, so does `run_to_first_halt` on the pairs of its rows, and the first halt is at the same
  -- place: the index counts from zero, the time from one.
  pub run_rows-run_to_first_halt :
      (table : List Row) (final : Progress)
      → All IsConfirmedRow table
      → run_rows fl profile policy 0 table start ≡ value final
      → run_to_first_halt fl profile policy (map pair_of table)
        ≡ value (from_one final.first_halt_index)
  unfolding run_to_first_halt
  run_rows-run_to_first_halt table final confirmed e =
      first_halt_from table 0 start final confirmed refl e
