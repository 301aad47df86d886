-- ===== src/Backend/Permits.antt =====
-- revm-backend/src/backend.rs: the semaphore of `RevmBackend`. A call of `simulate` takes a permit, its
-- blocking work holds the permit until it ends, and the caller waits for it no longer than the timeout.
use driftbrake.Base.{
  ℕ, suc, ◌+◌, ◌≤◌, ◌≡◌, refl, Bool, true, false, List, [], ◌∷◌, ◌++◌, length, length-append, arith,
}
use driftbrake.Float.{Floats}
use driftbrake.Backend.{RevmBackend}

-- Blocking work that has not ended, with whether its caller still waits for it.
pub record Job : Type 0 where
  pub call : ℕ
  pub is_awaited : Bool

pub record Pool : Type 0 where
  pub available : ℕ
  pub running : List Job

abbrev pub started : ℕ → Job
started call = record { call = call; is_awaited = true }

abbrev pub abandoned : Job → Job
abandoned job = record job { is_awaited = false }

-- What can happen in a pool, with the work in any order.
pub data Step : Pool → Pool → Type 0 where
  -- `acquire_owned` returns, and the blocking work starts with the permit.
  acquire :
      (call available : ℕ) (running : List Job)
      → Step
          (record { available = suc available; running = running })
          (record { available = available; running = started call ∷ running })
  -- The timeout of a caller elapses: the work goes on, with the permit.
  give_up :
      (available : ℕ) (job : Job) (before after : List Job)
      → Step
          (record { available = available; running = before ++ (job ∷ after) })
          (record { available = available; running = before ++ (abandoned job ∷ after) })
  -- The work ends, by its result, an error or a panic, and drops the permit.
  finish :
      (available : ℕ) (job : Job) (before after : List Job)
      → Step
          (record { available = available; running = before ++ (job ∷ after) })
          (record { available = suc available; running = before ++ after })

pub data Steps : Pool → Pool → Type 0 where
  done : (p : Pool) → Steps p p
  then_step : (p q r : Pool) → Steps p q → Step q r → Steps p r

-- The pool of a new backend.
abbrev pub pool_new : {fl : Floats} {Factory : Type 0} → RevmBackend fl Factory → Pool
pool_new self = record { available = self.concurrency; running = [] }

abbrev permits : Pool → ℕ
permits p = p.available + length p.running

Step-permits : (p q : Pool) → Step p q → permits q ≡ permits p
Step-permits p q (acquire call available running) = omega arith
Step-permits p q (give_up available job before after) =
    omega (arith, length-append before (job ∷ after), length-append before (abandoned job ∷ after))
Step-permits p q (finish available job before after) =
    omega (arith, length-append before (job ∷ after), length-append before after)

Steps-permits : (p q : Pool) → Steps p q → permits q ≡ permits p
Steps-permits p q (done p') = refl
Steps-permits p q (then_step p' r q' before step) =
    omega (arith, Steps-permits p r before, Step-permits r q step)

-- However the calls, timeouts and ends of work of a backend are interleaved, a permit is available or
-- held by work that has not ended, so no more simulations than the concurrency limit run at once, those
-- whose callers have given up included.
pub Steps-bound :
    {fl : Floats} {Factory : Type 0} (self : RevmBackend fl Factory) (p : Pool)
    → Steps (pool_new self) p
    → (p.available + length p.running ≡ self.concurrency) × (length p.running ≤ self.concurrency)
Steps-bound self p steps =
    let kept = Steps-permits (pool_new self) p steps in (omega (arith, kept), omega (arith, kept))
