-- ===== src/Core/History/Ratios.antt =====
-- The window of ratios that the guards read.
use driftbrake.Base.{
  ℕ, ◌-◌, ◌≡◌, sym, ap, ◌∙◌, List, [], ◌∷◌, ◌++◌, map, filter, take, take_last, length, min,
  reverse, arith, length-map, length-drop, map-reverse, filter-reverse, filter-append, take-reverse,
  reverse-reverse, append-nil,
}
use driftbrake.Base.Int.{pos, ◌≤ℤ◌}
use driftbrake.Core.Types.{PredictedProfit, RealizedProfit, HistoryEntry, ReconcileHistory}
use driftbrake.Core.History.{Pair, new, append, is_valid, ratio, recent_ratios}
use driftbrake.Core.History.Timeline.{confirmed_of, push_all, push_all_lem}
use driftbrake.Float.{Floats}

-- The pairs whose predicted profit is positive, oldest first.
abbrev pub valid_pairs : ReconcileHistory → List Pair
valid_pairs h = filter is_valid h.pairs

-- Appending a pair that predicted no profit adds none.
pub valid_pairs-append :
    (h : ReconcileHistory) (p : PredictedProfit) (r : RealizedProfit)
    → p.wei ≤ℤ pos 0
    → valid_pairs (append h p r) ≡ valid_pairs h
unfolding append
valid_pairs-append h p r nonpositive =
    filter-append is_valid h.pairs ((p, r) ∷ [])
    ∙ ap (λ (l : List Pair). valid_pairs h ++ l) excluded
    ∙ append-nil (valid_pairs h)
  where
    excluded : filter is_valid ((p, r) ∷ []) ≡ []
    excluded = ground arith

module _ (fl : Floats) where
  open fl use {Float, of_i128, div}

  -- `recent_ratios` gives realized over predicted, in this direction, for the last `n` pairs with a
  -- positive prediction, or for all of them where there are fewer, oldest first.
  pub recent_ratios_lem :
      (h : ReconcileHistory) (n : ℕ)
      → recent_ratios fl h n
        ≡ map (λ pair. div (of_i128 pair.1.wei) (of_i128 pair.0.wei)) (take_last n (valid_pairs h))
  unfolding recent_ratios ratio
  recent_ratios_lem h n =
      ap (λ (l : List Float). reverse l)
        (ap (λ (l : List Pair). map (ratio fl) (take n l)) (filter-reverse is_valid h.pairs)
          ∙ ap (map (ratio fl)) (take-reverse n (valid_pairs h))
          ∙ map-reverse (ratio fl) (take_last n (valid_pairs h)))
      ∙ reverse-reverse (map (ratio fl) (take_last n (valid_pairs h)))

  pub length-recent_ratios :
      (h : ReconcileHistory) (n : ℕ)
      → length (recent_ratios fl h n) ≡ min n (length (valid_pairs h))
  length-recent_ratios h n =
      ap length (recent_ratios_lem h n)
      ∙ omega (
        arith,
        length-map (λ (pair : Pair). div (of_i128 pair.1.wei) (of_i128 pair.0.wei))
            (take_last n (valid_pairs h)),
        length-drop (length (valid_pairs h) - n) (valid_pairs h),
      )

  -- A pair that predicted no profit leaves every window of ratios as it was.
  pub recent_ratios-append :
      (h : ReconcileHistory) (p : PredictedProfit) (r : RealizedProfit) (n : ℕ)
      → p.wei ≤ℤ pos 0
      → recent_ratios fl (append h p r) n ≡ recent_ratios fl h n
  recent_ratios-append h p r n nonpositive =
      recent_ratios_lem (append h p r) n
      ∙ rw (valid_pairs-append h p r nonpositive) (sym (recent_ratios_lem h n))

  -- The ratios of two histories with the same pairs agree.
  pub recent_ratios_cong :
      (g h : ReconcileHistory) (n : ℕ)
      → g.pairs ≡ h.pairs
      → recent_ratios fl g n ≡ recent_ratios fl h n
  unfolding recent_ratios
  recent_ratios_cong g h n e = rw e

  -- Reverts do not touch the ratios: two runs of events with the same confirmed pairs in the same
  -- order have the same window of ratios, whatever reverts stand between them.
  pub recent_ratios-reverts :
      (xs ys : List HistoryEntry) (n : ℕ)
      → confirmed_of xs ≡ confirmed_of ys
      → recent_ratios fl (push_all new xs) n ≡ recent_ratios fl (push_all new ys) n
  recent_ratios-reverts xs ys n e =
      recent_ratios_cong (push_all new xs) (push_all new ys) n
        ((push_all_lem xs).1 ∙ e ∙ sym (push_all_lem ys).1)
