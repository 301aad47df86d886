-- ===== src/Core/History/Timeline.antt =====
-- The timeline against the two lists that are kept beside it, the trailing reverts, and the gas.
use driftbrake.Base.{
  ℕ, ◌+◌, ◌*◌, ◌^◌, ◌<◌, ◌≡◌, refl, sym, ap, ◌∙◌, List, [], ◌∷◌, ◌++◌, map, reverse, take, length,
  value, Profile, arith, append_assoc, reverse-append, append-nil, map-reverse, length-reverse, ◌⊎◌,
  inl, inr,
}
use driftbrake.Base.Int.{arith_u128_fits}
use driftbrake.Core.Types.{
  PredictedProfit, RealizedProfit, RevertEvent, HistoryEntry, confirmed_pair, reverted_tx,
  ReconcileHistory,
}
use driftbrake.Core.History.{
  Pair, new, append, record_revert, count_reverts, consecutive_reverts, sum_gas,
  recent_revert_gas_burned,
}

-- The pairs and the reverts of a timeline, in its order.
abbrev pub confirmed_of : List HistoryEntry → List Pair
confirmed_of [] = []
confirmed_of (confirmed_pair p r ∷ rest) = (p, r) ∷ confirmed_of rest
confirmed_of (reverted_tx e ∷ rest) = confirmed_of rest

abbrev pub reverts_of : List HistoryEntry → List RevertEvent
reverts_of [] = []
reverts_of (confirmed_pair p r ∷ rest) = reverts_of rest
reverts_of (reverted_tx e ∷ rest) = e ∷ reverts_of rest

pub confirmed_of-append :
    (xs ys : List HistoryEntry) → confirmed_of (xs ++ ys) ≡ confirmed_of xs ++ confirmed_of ys
confirmed_of-append [] ys = refl
confirmed_of-append (confirmed_pair p r ∷ xs) ys =
    ap (λ (l : List Pair). (p, r) ∷ l) (confirmed_of-append xs ys)
confirmed_of-append (reverted_tx e ∷ xs) ys = confirmed_of-append xs ys

pub reverts_of-append :
    (xs ys : List HistoryEntry) → reverts_of (xs ++ ys) ≡ reverts_of xs ++ reverts_of ys
reverts_of-append [] ys = refl
reverts_of-append (confirmed_pair p r ∷ xs) ys = reverts_of-append xs ys
reverts_of-append (reverted_tx e ∷ xs) ys =
    ap (λ (l : List RevertEvent). e ∷ l) (reverts_of-append xs ys)

-- The two lists are the two projections of the timeline.
pub record IsConsistent (h : ReconcileHistory) : Type 0 where
  pub pairs_agree : h.pairs ≡ confirmed_of h.timeline
  pub reverts_agree : h.reverts ≡ reverts_of h.timeline

-- What a caller can do to a history, one entry at a time.
unfoldable pub push : ReconcileHistory → HistoryEntry → ReconcileHistory
push h (confirmed_pair p r) = append h p r
push h (reverted_tx e) = record_revert h e

unfoldable pub push_all : ReconcileHistory → List HistoryEntry → ReconcileHistory
push_all h [] = h
push_all h (entry ∷ rest) = push_all (push h entry) rest

push-IsConsistent :
    (h : ReconcileHistory) (entry : HistoryEntry) → IsConsistent h → IsConsistent (push h entry)
unfolding push append record_revert
push-IsConsistent h (confirmed_pair p r) c = record {
  pairs_agree = rw (confirmed_of-append, c.pairs_agree);
  reverts_agree = rw (reverts_of-append, ← c.reverts_agree, append-nil);
}
push-IsConsistent h (reverted_tx e) c = record {
  pairs_agree = rw (confirmed_of-append, ← c.pairs_agree, append-nil);
  reverts_agree = rw (reverts_of-append, c.reverts_agree);
}

push_all-IsConsistent :
    (h : ReconcileHistory) (entries : List HistoryEntry)
    → IsConsistent h
    → IsConsistent (push_all h entries)
unfolding push_all
push_all-IsConsistent h [] c = c
push_all-IsConsistent h (entry ∷ rest) c =
    push_all-IsConsistent (push h entry) rest (push-IsConsistent h entry c)

timeline-push :
    (h : ReconcileHistory) (entry : HistoryEntry)
    → (push h entry).timeline ≡ h.timeline ++ (entry ∷ [])
unfolding push append record_revert
timeline-push h (confirmed_pair p r) = refl
timeline-push h (reverted_tx e) = refl

pub timeline-push_all :
    (h : ReconcileHistory) (entries : List HistoryEntry)
    → (push_all h entries).timeline ≡ h.timeline ++ entries
unfolding push_all
timeline-push_all h [] = sym (append-nil h.timeline)
timeline-push_all h (entry ∷ rest) =
    timeline-push_all (push h entry) rest
    ∙ rw timeline-push (append_assoc h.timeline (entry ∷ []) rest)

-- Whatever is appended and recorded, in whatever order, starting from `new`: the timeline holds
-- exactly those entries in order, `pairs` its confirmed pairs and `reverts` its reverted ones.
pub push_all_lem :
    (entries : List HistoryEntry)
    → ((push_all new entries).timeline ≡ entries)
      × ((push_all new entries).pairs ≡ confirmed_of entries)
      × ((push_all new entries).reverts ≡ reverts_of entries)
push_all_lem entries =
    let c : IsConsistent (push_all new entries) = push_all-IsConsistent new entries empty in
    let t : (push_all new entries).timeline ≡ entries = timeline-push_all new entries in
    (t, c.pairs_agree ∙ ap confirmed_of t, c.reverts_agree ∙ ap reverts_of t)
  where
    empty : IsConsistent new
    empty = record { pairs_agree = refl; reverts_agree = refl }

count_reverts-burst :
    (burst : List RevertEvent) (rest : List HistoryEntry) (count : ℕ)
    → count_reverts (map reverted_tx burst ++ rest) count
      ≡ count_reverts rest (count + length burst)
unfolding count_reverts
count_reverts-burst [] rest count = let e : count + 0 ≡ count = omega arith in rw e
count_reverts-burst (event ∷ burst) rest count =
    count_reverts-burst burst rest (count + 1)
    ∙ (let e : count + 1 + length burst ≡ count + length (event ∷ burst) = omega arith in rw e)

-- The entries at the end of a timeline are reverts, and what stands before them is nothing or ends
-- in a confirmed pair.
abbrev pub EndsWith : List HistoryEntry → List RevertEvent → Type 0
EndsWith timeline burst =
    (timeline ≡ map reverted_tx burst)
    ⊎ ((front : List HistoryEntry) × (p : PredictedProfit) × (r : RealizedProfit) × (timeline
          ≡ front ++ (confirmed_pair p r ∷ map reverted_tx burst)))

-- `consecutive_reverts` is the number of reverts since the last confirmed pair, or of all entries
-- where there is no confirmed pair.
pub consecutive_reverts_trailing :
    (h : ReconcileHistory) (burst : List RevertEvent)
    → EndsWith h.timeline burst
    → consecutive_reverts h ≡ length burst
unfolding consecutive_reverts count_reverts
consecutive_reverts_trailing h burst (inl e) =
    ap (λ (t : List HistoryEntry). count_reverts (reverse t) 0) e
    ∙ ap (λ (t : List HistoryEntry). count_reverts t 0)
        (sym (map-reverse reverted_tx burst) ∙ sym (append-nil _))
    ∙ count_reverts-burst (reverse burst) [] 0
    ∙ omega (arith, length-reverse burst)
consecutive_reverts_trailing h burst (inr (front, p, r, e)) =
    ap (λ (t : List HistoryEntry). count_reverts (reverse t) 0) e
    ∙ ap (λ (t : List HistoryEntry). count_reverts t 0)
        (reverse-append front (confirmed_pair p r ∷ map reverted_tx burst) ∙ tail_reversed)
    ∙ count_reverts-burst (reverse burst) (confirmed_pair p r ∷ reverse front) 0
    ∙ omega (arith, length-reverse burst)
  where
    tail_reversed :
        reverse (confirmed_pair p r ∷ map reverted_tx burst) ++ reverse front
        ≡ map reverted_tx (reverse burst) ++ (confirmed_pair p r ∷ reverse front)
    tail_reversed =
        ap (λ (l : List HistoryEntry). l ++ reverse front)
          (reverse-append (confirmed_pair p r ∷ []) (map reverted_tx burst)
            ∙ ap (λ (l : List HistoryEntry). l ++ (confirmed_pair p r ∷ []))
                (sym (map-reverse reverted_tx burst)))
        ∙ append_assoc (map reverted_tx (reverse burst)) (confirmed_pair p r ∷ []) (reverse front)

-- The gas that the reverts of a list of entries burned.
abbrev pub total_gas : List HistoryEntry → ℕ
total_gas [] = 0
total_gas (reverted_tx e ∷ rest) = e.gas_used * e.effective_gas_price + total_gas rest
total_gas (confirmed_pair p r ∷ rest) = total_gas rest

sum_gas-fits :
    (profile : Profile) (entries : List HistoryEntry) (burned : ℕ)
    → burned + total_gas entries < 2 ^ 128
    → sum_gas profile entries burned ≡ value (burned + total_gas entries)
unfolding sum_gas
sum_gas-fits profile [] burned h = let e : burned + 0 ≡ burned = omega arith in rw e
sum_gas-fits profile (confirmed_pair p r ∷ rest) burned h = sum_gas-fits profile rest burned h
sum_gas-fits profile (reverted_tx e ∷ rest) burned h =
    let cost : ℕ = e.gas_used * e.effective_gas_price in
    rw
      (
        arith_u128_fits profile cost (omega arith),
        arith_u128_fits profile (burned + cost) (omega arith),
      )
      (sum_gas-fits profile rest (burned + cost) (omega arith)
        ∙ (let e : burned + cost + total_gas rest ≡ burned + (cost + total_gas rest) =
              omega arith in
            rw e))

-- While the gas burned in the last `window` entries fits 128 bits, neither profile panics or wraps,
-- and the result is the sum of gas used times gas price over the reverts among those entries.
pub recent_revert_gas_burned_fits :
    (profile : Profile) (h : ReconcileHistory) (window : ℕ)
    → total_gas (take window (reverse h.timeline)) < 2 ^ 128
    → recent_revert_gas_burned profile h window
      ≡ value (total_gas (take window (reverse h.timeline)))
unfolding recent_revert_gas_burned
recent_revert_gas_burned_fits profile h window fits =
    sum_gas-fits profile (take window (reverse h.timeline)) 0 (omega arith)
    ∙ (let e : 0 + total_gas (take window (reverse h.timeline))
            ≡ total_gas (take window (reverse h.timeline)) =
          omega arith in
        rw e)
