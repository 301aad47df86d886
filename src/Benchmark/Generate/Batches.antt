-- ===== src/Benchmark/Generate/Batches.antt =====
-- The shape of a batch, and the part of the random stream that it takes.
use driftbrake.Base.{ℕ, zero, suc, ◌+◌, ◌*◌, ◌≡◌, refl, ap, ◌∙◌, All, length, arith}
use driftbrake.Base.Int.{ℤ}
use driftbrake.Core.History.{Pair}
use driftbrake.Float.{Floats}
use driftbrake.Benchmark.Sweep.{Sequence}
use driftbrake.Benchmark.Generate.{
  Rng, next_u64, FloatFunctions, RegimeParams, next_f64, next_gaussian, generate_sequence,
  generate_batch,
}

-- The generator after so many draws.
abbrev pub after_draws : ℕ → Rng → Rng
after_draws zero rng = rng
after_draws (suc n) rng = after_draws n (next_u64 rng).0

after_draws-plus :
    (m n : ℕ) (rng : Rng) → after_draws n (after_draws m rng) ≡ after_draws (m + n) rng
after_draws-plus zero n rng = let e : 0 + n ≡ n = omega arith in rw e
after_draws-plus (suc m) n rng =
    let e : suc m + n ≡ suc (m + n) = omega arith in rw e (after_draws-plus m n (next_u64 rng).0)

module _ (fl : Floats) (functions : FloatFunctions fl) (regime : RegimeParams fl functions)
    (magnitude : ℤ) where
  -- So many pairs, all of which predict the same.
  abbrev pub IsSynthetic : ℕ → Sequence → Type 0
  IsSynthetic n seq = (length seq ≡ n) × All (λ (pair : Pair). pair.0.wei ≡ magnitude) seq

  gaussian_draws :
      (rng : Rng) (mean std_dev : Floats.Float fl)
      → (next_gaussian fl functions rng mean std_dev).0 ≡ after_draws 2 rng
  unfolding next_gaussian next_f64
  gaussian_draws rng mean std_dev = refl

  sequence_lem :
      (n : ℕ) (rng : Rng)
      → IsSynthetic n (generate_sequence fl functions rng regime n magnitude).1
        × ((generate_sequence fl functions rng regime n magnitude).0 ≡ after_draws (n * 2) rng)
  unfolding generate_sequence next_gaussian next_f64
  sequence_lem zero rng = ((refl, tt), refl)
  sequence_lem (suc n) rng =
      let (shape, draws) = sequence_lem n (after_draws 2 rng) in
      let count : 2 + n * 2 ≡ suc n * 2 = omega arith in
      (
        (ap suc shape.0, (refl, shape.1)),
        draws ∙ after_draws-plus 2 (n * 2) rng ∙ ap (λ (k : ℕ). after_draws k rng) count,
      )

  -- A batch holds `count` sequences of `n` pairs each, all of which predict the given magnitude, and
  -- it takes exactly two draws for each pair, so that a seed determines what follows a batch.
  pub generate_batch_lem :
      (count n : ℕ) (rng : Rng)
      → (length (generate_batch fl functions rng regime count n magnitude).1 ≡ count)
        × (All (IsSynthetic n) (generate_batch fl functions rng regime count n magnitude).1)
        × ((generate_batch fl functions rng regime count n magnitude).0
            ≡ after_draws (count * (n * 2)) rng)
  unfolding generate_batch
  generate_batch_lem zero n rng = (refl, tt, (let e : 0 * (n * 2) ≡ 0 = omega arith in rw e))
  generate_batch_lem (suc count) n rng =
      let (shape, draws) = sequence_lem n rng in
      let (many, shapes, later) =
        generate_batch_lem count n (generate_sequence fl functions rng regime n magnitude).0 in
      let total : n * 2 + count * (n * 2) ≡ suc count * (n * 2) = omega arith in
      (
        ap suc many,
        (shape, shapes),
        later
            ∙ ap (after_draws (count * (n * 2))) draws
            ∙ after_draws-plus (n * 2) (count * (n * 2)) rng
            ∙ ap (λ (k : ℕ). after_draws k rng) total,
      )
