-- ===== src/Arbitrage/Loop/Nonces.antt =====
-- examples/toy-arbitrage/src/main.rs: the nonces of the submitted transactions.
use driftbrake.Base.{
  ℕ, zero, suc, ◌+◌, ◌^◌, ◌<◌, ◌≡◌, refl, sym, ap, ◌∙◌, List, [], ◌∷◌, ◌++◌, map, Profile, length,
  length-append, arith, value_inj,
}
use driftbrake.Base.Int.{arith_u64_fits}
use driftbrake.Float.{Floats}
use driftbrake.Poller.{Environment}
use driftbrake.Arbitrage.Rpc.Signing.{UnsignedTx}
use driftbrake.Arbitrage.Loop.{Services, Settings, Loop}
use driftbrake.Arbitrage.Loop.Halts.{Run, start, idle, submitting, again-IsLawful}

-- n, n + 1, ...
abbrev pub count_from : ℕ → ℕ → List ℕ
count_from n zero = []
count_from n (suc k) = n ∷ count_from (n + 1) k

abbrev pub nonces : List UnsignedTx → List ℕ
nonces txs = map (λ tx. tx.nonce) txs

count_from-snoc : (n k : ℕ) → count_from n (suc k) ≡ count_from n k ++ ((n + k) ∷ [])
count_from-snoc n zero = ap (λ (m : ℕ). m ∷ []) (omega arith)
count_from-snoc n (suc k) =
    ap (λ (l : List ℕ). n ∷ l)
      (count_from-snoc (n + 1) k ∙ ap (λ (m : ℕ). count_from (n + 1) k ++ (m ∷ [])) (omega arith))

nonces-snoc :
    (txs : List UnsignedTx) (tx : UnsignedTx)
    → nonces (txs ++ (tx ∷ [])) ≡ nonces txs ++ (tx.nonce ∷ [])
nonces-snoc [] tx = refl
nonces-snoc (t ∷ txs) tx = ap (λ (l : List ℕ). t.nonce ∷ l) (nonces-snoc txs tx)

module _ (fl : Floats) (profile : Profile) (env : Environment) (services : Services env)
    (settings : Settings (Floats.Float fl)) where
  abbrev pub IsNumbered :
      Loop fl profile env services → List UnsignedTx → Loop fl profile env services → Type 0
  IsNumbered first txs last =
      (nonces txs ≡ count_from first.nonce (length txs)) × (last.nonce ≡ first.nonce + length txs)

  -- In a run whose nonces stay within a `u64`, the submitted transactions have the first state's nonce
  -- and those after it, in order, each once and without a gap, and the loop's own nonce is the next.
  pub Run-IsNumbered :
      (first : Loop fl profile env services) (txs : List UnsignedTx)
      (last : Loop fl profile env services)
      → first.nonce + length txs < 2 ^ 64
      → Run fl profile env services settings first txs last
      → IsNumbered first txs last
  Run-IsNumbered first txs last fits start = (refl, omega arith)
  Run-IsNumbered first txs last fits (idle txs' s t run e) =
      let lawful = again-IsLawful fl profile env services settings s t e in
      let before = Run-IsNumbered first txs s fits run in (before.0, lawful.0 ∙ before.1)
  Run-IsNumbered first txs last fits (submitting txs' tx s t run e) =
      let lawful = again-IsLawful fl profile env services settings s t e in
      let grown = length-append txs' (tx ∷ []) in
      let before = Run-IsNumbered first txs' s (omega (arith, grown)) run in
      let next : last.nonce ≡ s.nonce + 1 =
        value_inj
          (sym lawful.1 ∙ arith_u64_fits profile (s.nonce + 1) (omega (arith, grown, before.1))) in
      let size : suc (length txs') ≡ length (txs' ++ (tx ∷ [])) = omega (arith, grown) in
      let own : tx.nonce ≡ first.nonce + length txs' = lawful.0 ∙ before.1 in
      (
        nonces-snoc txs' tx
            ∙ ap (λ (m : ℕ). nonces txs' ++ (m ∷ [])) own
            ∙ ap (λ (l : List ℕ). l ++ ((first.nonce + length txs') ∷ [])) before.0
            ∙ sym (count_from-snoc first.nonce (length txs'))
            ∙ ap (count_from first.nonce) size,
        omega (arith, grown, next, before.1),
      )
