-- ===== src/Reconcile/Policy/Windows.antt =====
-- The two checks of reconcile/src/lib.rs that add up amounts, against their conditions.
use mathlib.Core.Bool.{◌&&◌}
use driftbrake.Base.{
  subst, ℕ, ◌+◌, ◌-◌, ◌*◌, ◌^◌, ◌≤◌, ◌<◌, ◌≡◌, refl, sym, ap, ◌∙◌, inl, inr, Bool, true, false,
  List, [], ◌∷◌, ◌++◌, Option, none, some, map, reverse, All, take, take_last, length, arith, ◌==◌,
  if◌then◌else◌, Profile, value, Bool-cases, length-map, length-reverse, take-append-drop,
  take_last_exact, take-reverse, filter-reverse, map-reverse, All-append_right, All-filter,
  All-reverse, lt→ltb, ltb→lt, ==_iff,
}
use driftbrake.Base.Int.{ℤ, pos, ◌<ℤ◌, ltb_ℤ, sum_ℤ, sum_ℤ-reverse, ◌+ℤ◌, int_laws, abs}
use driftbrake.Core.Types.{
  ReconcileHistory, HaltReason, net_drawdown_exceeded, volume_weighted_drift,
}
use driftbrake.Core.History.{Pair, is_valid}
use driftbrake.Core.History.Ratios.{valid_pairs}
use driftbrake.Float.{Floats}
use driftbrake.Reconcile.Config.{VolumeWeightedConfig, DrawdownConfig}
use driftbrake.Reconcile.Guards.{check_drawdown, check_volume_weighted, sum_i128, sum_deficit}
use driftbrake.Reconcile.Guards.Overflow.{IsWithin, deficit, sum_deficit_fits, sum_i128_fits}
use driftbrake.Reconcile.Policy.Halting.{
  DrawdownHalt, VolumeHalt, predicted_total, realized_total, drawdown_pairs, volume_pairs, Agrees,
  agrees_of_test,
}

module _ (fl : Floats) (profile : Profile) (h : ReconcileHistory) where
  open fl use {Float, of_i128, div, lt}

  -- The last `n` of `xs`, newest first, are complete exactly if `xs` ends in `n` elements.
  window_length : (xs : List Pair) (n : ℕ) → length (take n (reverse xs)) ≡ length (take_last n xs)
  window_length xs n = ap length (take-reverse n xs) ∙ length-reverse (take_last n xs)

  incomplete :
      (xs front window : List Pair) (n : ℕ)
      → xs ≡ front ++ window
      → length window ≡ n
      → (length (take n (reverse xs)) == n) ≡ false
      → ⊥
  incomplete xs front window n split len short =
      let e : length (take n (reverse xs)) ≡ n =
        window_length xs n
        ∙ ap (λ (l : List Pair). length (take_last n l)) split
        ∙ ap length (take_last_exact n front window len)
        ∙ len in
      ground arith

  complete :
      (xs : List Pair) (n : ℕ)
      → (length (take n (reverse xs)) == n) ≡ true
      → (xs ≡ take (length xs - n) xs ++ take_last n xs) × (length (take_last n xs) ≡ n)
  complete xs n full =
      (sym (take-append-drop (length xs - n) xs), sym (window_length xs n) ∙ (==_iff _ _).0 full)

  module _ (m : ℕ) where
    drawdown_sum :
        (xs : List Pair) (n : ℕ)
        → All (IsWithin m) xs
        → 2 * m * length (take_last n xs) < 2 ^ 127
        → sum_deficit profile (take n (reverse xs)) (pos 0)
          ≡ value (sum_ℤ (map deficit (take_last n xs)))
    drawdown_sum xs n small fits =
        let window : List Pair = take_last n xs in
        let within : All (IsWithin m) window =
          All-append_right (IsWithin m) (take (length xs - n) xs) window
            (subst (All (IsWithin m)) (sym (take-append-drop (length xs - n) xs)) small) in
        let same : length (reverse window) ≡ length window = length-reverse window in
        ap (λ (l : List Pair). sum_deficit profile l (pos 0)) (take-reverse n xs)
        ∙ sum_deficit_fits profile m (reverse window) (pos 0)
            (All-reverse (IsWithin m) window within)
            (room (length (reverse window)) (length window) same fits)
        ∙ ap value (
            zero_plus (sum_ℤ (map deficit (reverse window)))
            ∙ ap sum_ℤ (map-reverse deficit window)
            ∙ sum_ℤ-reverse (map deficit window))
      where
        zero_plus : (z : ℤ) → pos 0 +ℤ z ≡ z
        zero_plus z = omega int_laws

        room : (a b : ℕ) → a ≡ b → 2 * m * b < 2 ^ 127 → abs (pos 0) + 2 * m * a < 2 ^ 127
        room a b shorter small = grind arith

    pub check_drawdown-Agrees :
        (c : Option DrawdownConfig)
        → All (IsWithin m) h.pairs
        → 2 * m * drawdown_pairs c h < 2 ^ 127
        → (o : Option (HaltReason Float)) × (check_drawdown fl profile h c ≡ value o)
          × Agrees o (DrawdownHalt c h)
    unfolding check_drawdown
    check_drawdown-Agrees none amounts fits = (none, refl, inl (refl, λ c. c))
    check_drawdown-Agrees (some dd) amounts fits =
        elim (Bool-cases (length (take dd.window (reverse h.pairs)) == dd.window)) [
          | inl full ↦
              let loss : ℤ = sum_ℤ (map deficit (take_last dd.window h.pairs)) in
              let (split, len) = complete h.pairs dd.window full in
              (
                (if ltb_ℤ dd.max_drawdown_limit loss
                    then some (net_drawdown_exceeded loss dd.max_drawdown_limit dd.window)
                    else none),
                rw (full, drawdown_sum h.pairs dd.window amounts fits),
                agrees_of_test (ltb_ℤ dd.max_drawdown_limit loss) _ (DrawdownHalt (some dd) h)
                    (λ over. (
                      take (length h.pairs - dd.window) h.pairs,
                      take_last dd.window h.pairs,
                      split,
                      len,
                      ltb→lt _ _ over,
                    ))
                    (λ (front, window, split', len', over). lt→ltb _ _ (
                      subst (λ (l : List Pair). dd.max_drawdown_limit <ℤ sum_ℤ (map deficit l))
                        (sym (take_last_exact dd.window front window len')
                          ∙ ap (take_last dd.window) (sym split'))
                        over)),
              )
          | inr short ↦ (
            none,
            rw short,
            inl (
              refl,
              λ (front, window, split, len, over).
                  incomplete h.pairs front window dd.window split len short,
            ),
          )
        ]

    valid_sum :
        (f : Pair → ℤ) (n : ℕ)
        → All (λ pair. abs (f pair) ≤ m) h.pairs
        → 2 * m * length (take_last n (valid_pairs h)) < 2 ^ 127
        → sum_i128 profile (map f (take n (reverse (valid_pairs h)))) (pos 0)
          ≡ value (sum_ℤ (map f (take_last n (valid_pairs h))))
    valid_sum f n small fits =
        let valid : List Pair = valid_pairs h in
        let window : List Pair = take_last n (valid_pairs h) in
        let within : All (λ (pair : Pair). abs (f pair) ≤ m) window =
          All-append_right (λ (pair : Pair). abs (f pair) ≤ m) (take (length valid - n) valid)
            window
            (subst (All (λ (pair : Pair). abs (f pair) ≤ m))
              (sym (take-append-drop (length valid - n) valid))
              (All-filter (λ (pair : Pair). abs (f pair) ≤ m) is_valid h.pairs small)) in
        let same : length (map f (reverse window)) ≡ length window =
          length-map f (reverse window) ∙ length-reverse window in
        ap (λ (l : List Pair). sum_i128 profile (map f l) (pos 0)) (take-reverse n valid)
        ∙ sum_i128_fits profile m (map f (reverse window)) (pos 0)
            (All-map f (reverse window)
              (All-reverse (λ (pair : Pair). abs (f pair) ≤ m) window within))
            (room (length (map f (reverse window))) (length window) same fits)
        ∙ ap value (
            zero_plus (sum_ℤ (map f (reverse window)))
            ∙ ap sum_ℤ (map-reverse f window)
            ∙ sum_ℤ-reverse (map f window))
      where
        zero_plus : (z : ℤ) → pos 0 +ℤ z ≡ z
        zero_plus z = omega int_laws

        room : (a b : ℕ) → a ≡ b → 2 * m * b < 2 ^ 127 → abs (pos 0) + m * a < 2 ^ 127
        room a b shorter small = grind arith

        All-map :
            (f : Pair → ℤ) (l : List Pair)
            → All (λ pair. abs (f pair) ≤ m) l
            → All (λ z. abs z ≤ m) (map f l)
        All-map f [] a = tt
        All-map f (x ∷ l) a = (a.0, All-map f l a.1)

    pub check_volume_weighted-Agrees :
        (c : Option (VolumeWeightedConfig Float))
        → All (IsWithin m) h.pairs
        → 2 * m * volume_pairs c h < 2 ^ 127
        → (o : Option (HaltReason Float)) × (check_volume_weighted fl profile h c ≡ value o)
          × Agrees o (VolumeHalt fl c h)
    unfolding check_volume_weighted
    check_volume_weighted-Agrees none amounts fits = (none, refl, inl (refl, λ c. c))
    check_volume_weighted-Agrees (some vw) amounts fits =
        elim (Bool-cases (length (take vw.window (reverse (valid_pairs h))) == vw.window)) [
          | inl full ↦
              let window : List Pair = take_last vw.window (valid_pairs h) in
              let total_p : ℤ = predicted_total (take_last vw.window (valid_pairs h)) in
              let total_r : ℤ = realized_total (take_last vw.window (valid_pairs h)) in
              let weighted : Float = div (of_i128 total_r) (of_i128 total_p) in
              let (split, len) = complete (valid_pairs h) vw.window full in
              (
                (if ltb_ℤ (pos 0) total_p && lt weighted vw.threshold
                    then some (volume_weighted_drift weighted vw.threshold vw.window)
                    else none),
                rw (
                  filter-reverse is_valid h.pairs,
                  full,
                  valid_sum (λ pair. pair.0.wei) vw.window (predicted_within h.pairs amounts) fits,
                  valid_sum (λ pair. pair.1.wei) vw.window (realized_within h.pairs amounts) fits,
                ),
                agrees_of_test (ltb_ℤ (pos 0) total_p && lt weighted vw.threshold) _
                    (VolumeHalt fl (some vw) h)
                    (λ below. (
                      take (length (valid_pairs h) - vw.window) (valid_pairs h),
                      window,
                      split,
                      len,
                      ltb→lt _ _ (ground arith),
                      ground arith,
                    ))
                    (λ (front, w, split', len', some_predicted, below).
                      let same : w ≡ take_last vw.window (valid_pairs h) =
                        sym (take_last_exact vw.window front w len')
                        ∙ ap (take_last vw.window) (sym split') in
                      subst
                        (λ (l : List Pair).
                          ltb_ℤ (pos 0) (predicted_total l)
                            && lt (div (of_i128 (realized_total l)) (of_i128 (predicted_total l)))
                                vw.threshold
                          ≡ true)
                        same (and_true _ _ (lt→ltb _ _ some_predicted) below)),
              )
          | inr short ↦ (
            none,
            rw (filter-reverse is_valid h.pairs, short),
            inl (
              refl,
              λ (front, window, split, len, some_predicted, below).
                  incomplete (valid_pairs h) front window vw.window split len short,
            ),
          )
        ]
      where
        and_true : (a b : Bool) → a ≡ true → b ≡ true → (a && b) ≡ true
        and_true a b p q = ground arith

        predicted_within : (l : List Pair) → All (IsWithin m) l → All (λ pair. abs pair.0.wei ≤ m) l
        predicted_within [] a = tt
        predicted_within (x ∷ l) a = (a.0.0, predicted_within l a.1)

        realized_within : (l : List Pair) → All (IsWithin m) l → All (λ pair. abs pair.1.wei ≤ m) l
        realized_within [] a = tt
        realized_within (x ∷ l) a = (a.0.1, realized_within l a.1)
