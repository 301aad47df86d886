-- ===== src/Poller/Settling.antt =====
-- The loop ends, and what it leaves in the history is what the chain reported.
use driftbrake.Base.{
  ℕ, zero, suc, ◌+◌, ◌*◌, ◌^◌, ◌≤◌, ◌<◌, ◌≡◌, refl, subst, List, Option, none, some, ◌⊎◌, inl, inr,
  leb, leb→le, Bool-cases, arith, Outcome, value, panic, Profile,
}
use driftbrake.Base.Int.{arith_u64_fits}
use driftbrake.Core.Types.{
  PredictedProfit, RealizedProfit, Log, TxStatus, confirmed, reverted, TxReceipt, DecodeError,
  ReconcileHistory,
}
use driftbrake.Core.History.{append, record_revert}
use driftbrake.Float.{Floats}
use driftbrake.Poller.{
  realized, reverted_by, decode_failed, timed_out, settled, source, PollerConfig, poll_interval,
  timeout, Environment, ClockLaws, revert_event, book_decoded, book_status, book, Polled, settle,
  on_answer, poll, poll_until_settled,
}

module _ (env : Environment) (tx_hash : List ℕ) where
  open env use {World, get_receipt, decode_realized}

  -- The source has answered with that receipt and those logs, and left this state of the world.
  abbrev pub IsReported : World → TxReceipt → List Log → Type 0
  IsReported seen receipt logs =
      (asked : World) × (get_receipt asked tx_hash ≡ (seen, inr (some (receipt, logs))))

  -- The decoder has answered on a confirmed receipt that the source reported just before.
  abbrev pub IsDecoded : World → Outcome (DecodeError ⊎ RealizedProfit) → Type 0
  IsDecoded world answer =
      (receipt : TxReceipt) × (logs : List Log) × (seen : World) × IsReported seen receipt logs
      × (receipt.status ≡ confirmed)
      × (decode_realized seen receipt logs ≡ (world, answer))

module _ (env : Environment) (tx_hash : List ℕ) (predicted : PredictedProfit)
    (before : ReconcileHistory) where
  open env use {World, Error, get_receipt, decode_realized, now, sleep}

  -- What a result says of the chain and of the history after it.
  abbrev pub IsBooked : ℕ → Polled env → Type 0
  IsBooked deadline panic = (world : World) × IsDecoded env tx_hash world panic
  IsBooked deadline (value (world, after, settled (realized profit))) =
      IsDecoded env tx_hash world (value (inr profit)) × (after ≡ append before predicted profit)
  IsBooked deadline (value (world, after, settled (reverted_by event))) =
      (receipt : TxReceipt) × (logs : List Log) × IsReported env tx_hash world receipt logs
      × (receipt.status ≡ reverted)
      × (event ≡ revert_event tx_hash receipt)
      × (after ≡ record_revert before event)
  IsBooked deadline (value (world, after, settled (decode_failed error))) =
      IsDecoded env tx_hash world (value (inl error)) × (after ≡ before)
  IsBooked deadline (value (world, after, settled timed_out)) =
      (deadline ≤ now world) × (after ≡ before)
  IsBooked deadline (value (world, after, source error)) =
      ((asked : World) × (get_receipt asked tx_hash ≡ (world, inl error))) × (after ≡ before)

  abbrev pub IsBookedBy : ℕ → Option (Polled env) → Type 0
  IsBookedBy deadline none = Unit {0}
  IsBookedBy deadline (some result) = IsBooked deadline result

  decoded-IsBooked :
      (deadline : ℕ) (seen : World) (receipt : TxReceipt) (logs : List Log)
      (answer : World × Outcome (DecodeError ⊎ RealizedProfit))
      → IsReported env tx_hash seen receipt logs
      → receipt.status ≡ confirmed
      → decode_realized seen receipt logs ≡ answer
      → IsBooked deadline (settle env (book_decoded env predicted before answer))
  decoded-IsBooked deadline seen receipt logs (world, panic) reported ok e =
      (world, (receipt, logs, seen, reported, ok, e))
  decoded-IsBooked deadline seen receipt logs (world, value (inl error)) reported ok e =
      ((receipt, logs, seen, reported, ok, e), refl)
  decoded-IsBooked deadline seen receipt logs (world, value (inr profit)) reported ok e =
      ((receipt, logs, seen, reported, ok, e), refl)

  status-IsBooked :
      (deadline : ℕ) (seen : World) (status : TxStatus) (receipt : TxReceipt) (logs : List Log)
      → IsReported env tx_hash seen receipt logs
      → receipt.status ≡ status
      → IsBooked deadline
          (settle env (book_status env status tx_hash predicted before seen receipt logs))
  status-IsBooked deadline seen reverted receipt logs reported e =
      (receipt, logs, reported, e, refl, refl)
  status-IsBooked deadline seen confirmed receipt logs reported e =
      decoded-IsBooked deadline seen receipt logs (decode_realized seen receipt logs) reported e
        refl

  answer-IsBookedBy :
      (deadline : ℕ) (asked world : World) (answer : Error ⊎ Option (TxReceipt × List Log))
      (again : Option (Polled env))
      → get_receipt asked tx_hash ≡ (world, answer)
      → IsBookedBy deadline again
      → IsBookedBy deadline (on_answer env deadline tx_hash predicted before world answer again)
  unfolding book
  answer-IsBookedBy deadline asked world (inl error) again e next = ((asked, e), refl)
  answer-IsBookedBy deadline asked world (inr (some (receipt, logs))) again e next =
      status-IsBooked deadline world receipt.status receipt logs (asked, e) refl
  answer-IsBookedBy deadline asked world (inr none) again e next =
      elim (Bool-cases (leb deadline (now world))) [
        | inl late ↦ rw late (leb→le _ _ late, refl)
        | inr early ↦ rw early next
      ]

  pub poll-IsBookedBy :
      (fuel interval deadline : ℕ) (world : World)
      → IsBookedBy deadline (poll env fuel interval deadline tx_hash predicted before world)
  unfolding poll
  poll-IsBookedBy zero interval deadline world = tt
  poll-IsBookedBy (suc fuel) interval deadline world =
      let answer = get_receipt world tx_hash in
      answer-IsBookedBy deadline world answer.0 answer.1 _ refl
        (poll-IsBookedBy fuel interval deadline (sleep interval answer.0))

  answer_ends :
      (deadline : ℕ) (world : World) (answer : Error ⊎ Option (TxReceipt × List Log))
      (again : Option (Polled env))
      → (now world < deadline → (result : Polled env) × (again ≡ some result))
      → (result : Polled env) × (on_answer env deadline tx_hash predicted before world answer again
          ≡ some result)
  answer_ends deadline world (inl error) again next = (_, refl)
  answer_ends deadline world (inr (some (receipt, logs))) again next = (_, refl)
  answer_ends deadline world (inr none) again next = elim (Bool-cases (leb deadline (now world))) [
    | inl late ↦ (value (world, before, settled timed_out), rw late refl)
    | inr early ↦ let rest = next (ground (arith, early)) in (rest.0, rw early rest.1)
  ]

  -- Within as many rounds as there are milliseconds to the deadline, and one more, the loop ends.
  pub poll_ends :
      (clock : ClockLaws env) (fuel interval deadline : ℕ) (world : World)
      → 1 ≤ interval
      → deadline ≤ now world + fuel
      → (result : Polled env) × (poll env
            (suc fuel)
            interval
            deadline
            tx_hash
            predicted
            before
            world
          ≡ some result)
  unfolding poll
  poll_ends clock zero interval deadline world positive enough =
      answer_ends deadline (get_receipt world tx_hash).0 (get_receipt world tx_hash).1 _
        (λ early. absurd (omega (arith, clock.get_receipt_takes_time world tx_hash)))
  poll_ends clock (suc fuel) interval deadline world positive enough =
      answer_ends deadline asked (get_receipt world tx_hash).1 _ (λ early.
        poll_ends clock fuel interval deadline (sleep interval asked) positive (
          omega
            (arith, clock.get_receipt_takes_time world tx_hash, clock.sleep_lasts interval asked)))
    where
      asked : World
      asked = (get_receipt world tx_hash).0

  -- Where the timeout fits 64 bits, the interval is at least a millisecond, the clock does not run
  -- backwards and a sleep takes its time, the poll ends within the fuel. A realized profit was decoded from
  -- a confirmed receipt that the source reported, and is appended with the prediction; a revert comes from
  -- a reverted receipt, and is recorded; on a decoding error, a timeout, which is not before the deadline,
  -- and an error of the source the history is unchanged; and a panic is one of the decoder, on a confirmed
  -- receipt that the source reported.
  pub poll_until_settled_lem :
      (fl : Floats) (profile : Profile) (config : PollerConfig (Floats.Float fl)) (world : World)
      → ClockLaws env
      → config.block_time_ms * config.confirmation_timeout_blocks < 2 ^ 64
      → 1 ≤ poll_interval fl config
      → (result : Polled env) × (poll_until_settled env fl profile config tx_hash predicted before
            world
          ≡ some result)
        × IsBooked (now world + config.block_time_ms * config.confirmation_timeout_blocks) result
  unfolding poll_until_settled timeout
  poll_until_settled_lem fl profile config world clock fits positive =
      let wait : ℕ = config.block_time_ms * config.confirmation_timeout_blocks in
      let interval = poll_interval fl config in
      let (result, e) =
        poll_ends clock wait interval (now world + wait) world positive (omega arith) in
      (
        result,
        rw (arith_u64_fits profile wait fits) e,
        subst (IsBookedBy (now world + wait)) e
            (poll-IsBookedBy (suc wait) interval (now world + wait) world),
      )
