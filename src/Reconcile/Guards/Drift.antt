-- ===== src/Reconcile/Guards/Drift.antt =====
-- The fast and the slow guard against the whitepaper's definitions (docs/whitepaper.md, 4.2 and 4.3).
use mathlib.Core.List.{foldl}
use driftbrake.Base.{
  ℕ, ◌-◌, ◌≡◌, sym, ap, ◌∙◌, true, List, ◌++◌, some, map, all, All, take, take_last, length, arith,
  Profile, length-map, length-drop, take-append-drop, take_last_exact, all-map→All, All→all-map,
}
use driftbrake.Core.Types.{ReconcileHistory, HaltReason, fast_guard, slow_guard}
use driftbrake.Core.History.{Pair, recent_ratios}
use driftbrake.Core.History.Ratios.{valid_pairs, recent_ratios_lem, length-recent_ratios}
use driftbrake.Float.{Floats}
use driftbrake.Reconcile.Config.{FastGuardConfig, SlowGuardConfig}
use driftbrake.Reconcile.Guards.{check_fast, check_slow}

module _ (fl : Floats) where
  open fl use {Float, of_i128, of_nat, add, div, sum_start, lt, le}

  -- Equation 1: realized over predicted.
  abbrev pub rho : Pair → Float
  rho pair = div (of_i128 pair.1.wei) (of_i128 pair.0.wei)

  -- Equation 2: the last `k` pairs with a positive prediction exist, and each has a ratio below `t`.
  abbrev pub FastHalt : FastGuardConfig Float → ReconcileHistory → Type 0
  FastHalt fast h =
      (front : List Pair) × (window : List Pair) × (valid_pairs h ≡ front ++ window)
      × (length window ≡ fast.window)
      × All (λ pair. lt (rho pair) fast.threshold ≡ true) window

  -- The sum of the ratios over their number.
  abbrev pub mean : List Float → Float
  mean ratios = div (foldl add sum_start ratios) (of_nat (length ratios))

  -- Equation 3: the last `k` such pairs exist, and the mean of their ratios is below `t`.
  abbrev pub SlowHalt : SlowGuardConfig Float → ReconcileHistory → Type 0
  SlowHalt slow h =
      (front : List Pair) × (window : List Pair) × (valid_pairs h ≡ front ++ window)
      × (length window ≡ slow.window)
      × (lt (mean (map rho window)) slow.threshold ≡ true)

  module _ (profile : Profile) (h : ReconcileHistory) where
    split_window :
        (n : ℕ)
        → length (recent_ratios fl h n) ≡ n
        → (valid_pairs h
            ≡ take (length (valid_pairs h) - n) (valid_pairs h) ++ take_last n (valid_pairs h))
          × (length (take_last n (valid_pairs h)) ≡ n)
    split_window n full = (
      sym (take-append-drop (length (valid_pairs h) - n) (valid_pairs h)),
      omega (
        arith,
        length-recent_ratios fl h n,
        length-drop (length (valid_pairs h) - n) (valid_pairs h),
        full,
      ),
    )

    recent_ratios_window :
        (front window : List Pair) (n : ℕ)
        → valid_pairs h ≡ front ++ window
        → length window ≡ n
        → recent_ratios fl h n ≡ map rho window
    recent_ratios_window front window n split len =
        recent_ratios_lem fl h n
        ∙ ap (λ (l : List Pair). map rho (take_last n l)) split
        ∙ ap (map rho) (take_last_exact n front window len)

    -- When the fast guard halts, the last window of valid pairs is complete and below the threshold.
    pub check_fast→FastHalt :
        (fast : FastGuardConfig Float) (reason : HaltReason Float)
        → check_fast fl profile h fast ≡ some reason
        → FastHalt fast h
    unfolding check_fast
    check_fast→FastHalt fast reason e =
        let (split, len) = split_window fast.window (ground arith) in
        (
          take (length (valid_pairs h) - fast.window) (valid_pairs h),
          take_last fast.window (valid_pairs h),
          split,
          len,
          all-map→All (λ ratio. lt ratio fast.threshold) rho (take_last fast.window (valid_pairs h))
              (ap (all (λ ratio. lt ratio fast.threshold))
                  (sym (recent_ratios_lem fl h fast.window))
                ∙ ground arith),
        )

    pub FastHalt→check_fast :
        (fast : FastGuardConfig Float)
        → FastHalt fast h
        → check_fast fl profile h fast
          ≡ some (fast_guard (recent_ratios fl h fast.window) fast.threshold)
    unfolding check_fast
    FastHalt→check_fast fast (front, window, split, len, below) =
        let ratios : recent_ratios fl h fast.window ≡ map rho window =
          recent_ratios_window front window fast.window split len in
        let full : length (recent_ratios fl h fast.window) ≡ fast.window =
          ap length ratios ∙ omega (arith, length-map rho window) in
        let low : all (λ ratio. lt ratio fast.threshold) (recent_ratios fl h fast.window) ≡ true =
          ap (all (λ ratio. lt ratio fast.threshold)) ratios
          ∙ All→all-map (λ ratio. lt ratio fast.threshold) rho window below in
        ground arith

    pub check_slow→SlowHalt :
        (slow : SlowGuardConfig Float) (reason : HaltReason Float)
        → check_slow fl profile h slow ≡ some reason
        → SlowHalt slow h
    unfolding check_slow
    check_slow→SlowHalt slow reason e =
        let (split, len) = split_window slow.window (ground arith) in
        (
          take (length (valid_pairs h) - slow.window) (valid_pairs h),
          take_last slow.window (valid_pairs h),
          split,
          len,
          ap (λ (l : List Float). lt (mean l) slow.threshold)
                (sym (recent_ratios_lem fl h slow.window))
              ∙ ground arith,
        )

    pub SlowHalt→check_slow :
        (slow : SlowGuardConfig Float)
        → SlowHalt slow h
        → check_slow fl profile h slow
          ≡ some (slow_guard (mean (recent_ratios fl h slow.window)) slow.window slow.threshold)
    unfolding check_slow
    SlowHalt→check_slow slow (front, window, split, len, below) =
        let ratios : recent_ratios fl h slow.window ≡ map rho window =
          recent_ratios_window front window slow.window split len in
        let full : length (recent_ratios fl h slow.window) ≡ slow.window =
          ap length ratios ∙ omega (arith, length-map rho window) in
        let low : lt (mean (recent_ratios fl h slow.window)) slow.threshold ≡ true =
          ap (λ (l : List Float). lt (mean l) slow.threshold) ratios ∙ below in
        ground arith
