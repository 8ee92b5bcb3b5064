-- ===== src/Web/Capacity.antt =====
-- src/local_graph_rag/web/rag_executor.py: the requests that share the semaphore of the pipeline,
-- `_RAG_CONCURRENCY`. A step is what the event loop does for one request between two awaits, or the
-- end of a job in the executor; how long anything takes is left open.
pub mod Permits
use local_graph_rag.Prelude.{
  ℕ, zero, suc, ◌+◌, ◌-◌, ◌<◌, ◌≡◌, Bool, true, false, List, [], ◌∷◌, ◌++◌,
}

-- Where a request stands, with what it was answered.
pub data Client : Type 0 where
  queueing : Client  -- in `_wait_for_capacity`
  waiting : Client  -- for the future of its job
  answered : Client
  no_capacity : Client  -- 504
  timed_out : Client  -- 504
  failed : Client  -- 500

-- The job of a request, `true` if it returned and `false` if it raised.
pub data Job : Type 0 where
  no_job : Job
  running : Job
  ended : Bool → Job

pub record Call : Type 0 where
  pub client : Client
  pub job : Job
  pub cancelled : Bool

-- A move of one request, from `p` free permits to `p'`.
pub data Move (c : Call) (p : ℕ) (c' : Call) (p' : ℕ) : Type 0 where
  -- `wait_for` of the semaphore runs out.
  capacity_expires :
      c.client ≡ queueing → c' ≡ record c { client = no_capacity } → p' ≡ p → Move c p c' p'
  -- The permit comes when no time is left, and goes back.
  admitted_late :
      c.client ≡ queueing
      → 0 < p
      → c' ≡ record c { client = no_capacity }
      → p' ≡ p - 1 + 1
      → Move c p c' p'
  -- `run_in_executor` raises, and the permit goes back.
  submit_raises :
      c.client ≡ queueing
      → 0 < p
      → c' ≡ record c { client = failed }
      → p' ≡ p - 1 + 1
      → Move c p c' p'
  submits :
      c.client ≡ queueing
      → 0 < p
      → c' ≡ record c { client = waiting; job = running }
      → p' ≡ p - 1
      → Move c p c' p'
  -- The future is done: its callback releases the permit, whether the request still waits or not.
  job_ends :
      (returned : Bool)
      → c.job ≡ running
      → c' ≡ record c { job = ended returned }
      → p' ≡ p + 1
      → Move c p c' p'
  answers :
      c.client ≡ waiting
      → c.job ≡ ended true
      → c' ≡ record c { client = answered }
      → p' ≡ p
      → Move c p c' p'
  answers_error :
      c.client ≡ waiting
      → c.job ≡ ended false
      → c' ≡ record c { client = failed; cancelled = true }
      → p' ≡ p
      → Move c p c' p'
  -- The future is shielded: its job runs on.
  times_out :
      c.client ≡ waiting
      → c.job ≡ running
      → c' ≡ record c { client = timed_out; cancelled = true }
      → p' ≡ p
      → Move c p c' p'

pub record Server : Type 0 where
  pub permits : ℕ
  pub calls : List Call

abbrev pub arrived : Call
arrived = record { client = queueing; job = no_job; cancelled = false }

pub data Step (s : Server) (t : Server) : Type 0 where
  arrives : t.calls ≡ s.calls ++ arrived ∷ [] → t.permits ≡ s.permits → Step s t
  moves :
      (before after : List Call) (c c' : Call)
      → s.calls ≡ before ++ c ∷ after
      → Move c s.permits c' t.permits
      → t.calls ≡ before ++ c' ∷ after
      → Step s t

-- What `init_rag_executor` with this limit may lead to.
pub data Reach (limit : ℕ) : Server → Type 0 where
  start : Reach limit (record { permits = limit; calls = [] })
  later : {s t : Server} → Reach limit s → Step s t → Reach limit t
