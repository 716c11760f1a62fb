-- ===== src/AsyncWrite/Retried.antt =====
-- What becomes of the claimed jobs.
use duraclaw.AsyncWrite.{Job, state_after_apply, Step, complete_job, release_job, run_jobs}
use duraclaw.Shared.{
  ℕ, ◌+◌, ◌≤◌, ◌<◌, ◌≡◌, ◌≢◌, inl, inr, ◌⊎◌, arith, Bool, true, false, ◌&&◌, List, [], ◌∷◌, String,
  ltb, leb, Bool-cases, same, differ, str-Compared,
}

-- The state of a job that has been applied: a degraded write stays degraded, a dropped one dropped, and
-- any other is completed.
pub data Applied (job : Job) : String → Type 0 where
  was_degraded : job.target_table ≡ "degraded" → Applied job "degraded"
  was_dropped : job.target_table ≢ "degraded" → job.job_state ≡ "dropped" → Applied job "dropped"
  was_queued : job.target_table ≢ "degraded" → job.job_state ≢ "dropped" → Applied job "completed"

state_after_apply-Applied : (job : Job) → Applied job (state_after_apply job)
unfolding state_after_apply
state_after_apply-Applied job = elim (str-Compared job.target_table "degraded") [
  | same e t ↦ rw t (was_degraded e)
  | differ n f ↦ elim (str-Compared job.job_state "dropped") [
    | same e t ↦ rw (f, t) (was_dropped n e)
    | differ m g ↦ rw (f, g) (was_queued n m)
  ]
]

-- A run over the jobs: its steps, how many jobs it flushes, and whether it ends with an error.
pub data AreRight (max_attempts : ℕ) (applies completes : Job → Bool)
    : List Job → List Step → ℕ → Bool → Type 0 where
  all_done : AreRight max_attempts applies completes [] [] 0 false
  flushed :
      (job : Job) (jobs : List Job) (state : String) (steps : List Step) (n : ℕ) (failed : Bool)
      → applies job ≡ true
      → completes job ≡ true
      → Applied job state
      → AreRight max_attempts applies completes jobs steps n failed
      → AreRight max_attempts applies completes
          (job ∷ jobs)
          (complete_job job state ∷ steps)
          (n + 1)
          failed
  not_recorded :
      (job : Job) (jobs : List Job) (state : String)
      → applies job ≡ true
      → completes job ≡ false
      → Applied job state
      → AreRight max_attempts applies completes (job ∷ jobs) (complete_job job state ∷ []) 0 true
  used_up :
      (job : Job) (jobs : List Job)
      → applies job ≡ false
      → 0 < max_attempts
      → max_attempts ≤ job.attempts
      → AreRight max_attempts applies completes (job ∷ jobs) (complete_job job "failed" ∷ []) 0 true
  given_back :
      (job : Job) (jobs : List Job)
      → applies job ≡ false
      → (max_attempts ≡ 0) ⊎ (job.attempts < max_attempts)
      → AreRight max_attempts applies completes (job ∷ jobs) (release_job job ∷ []) 0 true

-- The loop of `RunOnce` over the claimed jobs applies them in their order, and completes and counts each
-- that is applied, until there is none left or a call fails. A job that cannot be applied is completed as
-- failed once its attempts are used up, and released for another attempt before that; it ends the loop
-- with an error, and so does a completion that fails.
pub run_jobs-AreRight :
    (max_attempts : ℕ) (applies completes : Job → Bool) (jobs : List Job)
    → AreRight max_attempts applies completes jobs
        (run_jobs max_attempts applies completes jobs).0
        (run_jobs max_attempts applies completes jobs).1
        (run_jobs max_attempts applies completes jobs).2
unfolding run_jobs
run_jobs-AreRight max_attempts applies completes [] = all_done
run_jobs-AreRight max_attempts applies completes (job ∷ jobs) = elim (Bool-cases (applies job)) [
  | inl t ↦ elim (Bool-cases (completes job)) [
    | inl u ↦
        rw (t, u)
          (flushed job jobs _ _ _ _ t u (state_after_apply-Applied job)
            (run_jobs-AreRight max_attempts applies completes jobs))
    | inr u ↦ rw (t, u) (not_recorded job jobs _ t u (state_after_apply-Applied job))
  ]
  | inr f ↦ elim (Bool-cases (ltb 0 max_attempts && leb max_attempts job.attempts)) [
    | inl u ↦ rw (f, u) (used_up job jobs f (ground arith) (ground arith))
    | inr u ↦ rw (f, u) (given_back job jobs f (early u))
  ]
]
  where
    early :
        (ltb 0 max_attempts && leb max_attempts job.attempts) ≡ false
        → (max_attempts ≡ 0) ⊎ (job.attempts < max_attempts)
    early u = elim (Bool-cases (ltb 0 max_attempts)) [
      | inl t ↦ inr (ground arith)
      | inr f ↦ inl (ground arith)
    ]
