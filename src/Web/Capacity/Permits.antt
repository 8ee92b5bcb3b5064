-- ===== src/Web/Capacity/Permits.antt =====
-- Permits are neither lost nor made.
use local_graph_rag.Prelude.{
  ℕ, ◌+◌, ◌≡◌, ◌≢◌, refl, sym, ap, ◌∙◌, Bool, true, List, [], ◌∷◌, ◌++◌, All, All-append, arith,
}
use local_graph_rag.Web.Capacity.{
  Client, queueing, waiting, answered, no_capacity, timed_out, failed, Job, no_job, running, ended,
  Call, Move, capacity_expires, admitted_late, submit_raises, submits, job_ends, answers,
  answers_error, times_out, Server, arrived, Step, arrives, moves, Reach, start, later,
}

abbrev pub holds : Job → ℕ
holds running = 1
holds no_job = 0
holds (ended _) = 0

-- The jobs that run.
abbrev pub in_flight : List Call → ℕ
in_flight [] = 0
in_flight (c ∷ cs) = holds c.job + in_flight cs

-- What the answer of a request says of its job.
abbrev pub Fits : Client → Job → Type 0
Fits queueing job = job ≡ no_job
Fits waiting job = job ≢ no_job
Fits answered job = job ≡ ended true
Fits no_capacity job = job ≡ no_job
Fits timed_out job = job ≢ no_job
Fits failed job = job ≢ running

abbrev pub IsCoherent : Call → Type 0
IsCoherent c = Fits c.client c.job

in_flight-append : (xs ys : List Call) → in_flight (xs ++ ys) ≡ in_flight xs + in_flight ys
in_flight-append [] ys = omega arith
in_flight-append (c ∷ xs) ys = omega (arith, in_flight-append xs ys)

Move-conserves :
    (c c' : Call) (p p' : ℕ) → IsCoherent c → Move c p c' p' → p' + holds c'.job ≡ p + holds c.job
Move-conserves c c' p p' k (capacity_expires q e f) = ground arith
Move-conserves c c' p p' k (admitted_late q free e f) = ground arith
Move-conserves c c' p p' k (submit_raises q free e f) = ground arith
Move-conserves c c' p p' k (submits q free e f) =
    let own : c.job ≡ no_job = rw q at k in ground arith
Move-conserves c c' p p' k (job_ends b q e f) = ground arith
Move-conserves c c' p p' k (answers q j e f) = ground arith
Move-conserves c c' p p' k (answers_error q j e f) = ground arith
Move-conserves c c' p p' k (times_out q j e f) = ground arith

ended-Fits : (client : Client) (b : Bool) → Fits client running → Fits client (ended b)
ended-Fits queueing b h = absurd (cc h)
ended-Fits waiting b h = λ e. cc e
ended-Fits answered b h = absurd (cc h)
ended-Fits no_capacity b h = absurd (cc h)
ended-Fits timed_out b h = λ e. cc e
ended-Fits failed b h = λ e. cc e

no_job_runs_not : (job : Job) → job ≡ no_job → job ≢ running
no_job_runs_not job e f = cc (sym e ∙ f)

Move-IsCoherent : (c c' : Call) (p p' : ℕ) → IsCoherent c → Move c p c' p' → IsCoherent c'
Move-IsCoherent c c' p p' k (capacity_expires q e f) = rw e (rw q at k)
Move-IsCoherent c c' p p' k (admitted_late q free e f) = rw e (rw q at k)
Move-IsCoherent c c' p p' k (submit_raises q free e f) = rw e (no_job_runs_not c.job (rw q at k))
Move-IsCoherent c c' p p' k (submits q free e f) = rw e (λ h. cc h)
Move-IsCoherent c c' p p' k (job_ends b q e f) = rw e (ended-Fits c.client b (rw q at k))
Move-IsCoherent c c' p p' k (answers q j e f) = rw e j
Move-IsCoherent c c' p p' k (answers_error q j e f) = rw e (λ h. cc (sym j ∙ h))
Move-IsCoherent c c' p p' k (times_out q j e f) = rw e (λ h. cc (sym j ∙ h))

All-middle :
    (before after : List Call) (c c' : Call)
    → All IsCoherent (before ++ c ∷ after)
    → (IsCoherent c → IsCoherent c')
    → IsCoherent c × All IsCoherent (before ++ c' ∷ after)
All-middle [] after c c' h k = (h.0, (k h.0, h.1))
All-middle (b ∷ before) after c c' h k =
    let (own, rest) = All-middle before after c c' h.1 k in (own, (h.0, rest))

-- The invariant, for a limit.
pub record Conserves (limit : ℕ) (s : Server) : Type 0 where
  pub adds_up : s.permits + in_flight s.calls ≡ limit
  pub coherent : All IsCoherent s.calls

Step-Conserves : {limit : ℕ} {s t : Server} → Step s t → Conserves limit s → Conserves limit t
Step-Conserves {limit} {s} {t} (arrives e f) h = record {
  adds_up = let k = h.adds_up in rw e (omega (arith, in_flight-append s.calls (arrived ∷ [])));
  coherent = rw e (All-append IsCoherent s.calls (arrived ∷ []) h.coherent (refl, tt));
}
Step-Conserves {limit} {s} {t} (moves before after c c' e m f) h = record {
  adds_up =
      let k = h.adds_up in
      let kept = Move-conserves c c' s.permits t.permits both.0 m in
      let was = ap in_flight e in
      rw f
        (omega (arith, in_flight-append before (c ∷ after), in_flight-append before (c' ∷ after)));
  coherent = rw f both.1;
}
  where
    both : IsCoherent c × All IsCoherent (before ++ c' ∷ after)
    both =
        All-middle before after c c' (rw e at h.coherent)
          (λ k. Move-IsCoherent c c' s.permits t.permits k m)

-- At every moment the free permits and the running jobs add up to the limit, so that no more jobs
-- run than it allows, also when requests have timed out before their jobs ended. A request was
-- answered only if its job returned, and one that got no capacity never had a job.
pub Reach-Conserves : {limit : ℕ} {s : Server} → Reach limit s → Conserves limit s
Reach-Conserves start = record { adds_up = omega arith; coherent = tt }
Reach-Conserves (later r st) = Step-Conserves st (Reach-Conserves r)
