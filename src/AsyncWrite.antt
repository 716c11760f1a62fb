-- ===== src/AsyncWrite.antt =====
-- The writer of asynchronous writes (internal/asyncwrite/asyncwrite.go): `Enqueue`, `prepare`, `RunOnce`,
-- `stateAfterApply`. The buffered channel is a list with a capacity. `apply` hands a job to the tables
-- of events and to the exporter, outside the writer: a list says of each coming call whether it fails.
-- A limit of 0 is none.
pub mod Conserved
pub mod Retried
mod Tests
use duraclaw.Json.{Json, text, number, boolean, object, Fields, end, field, pos, decimal}
use duraclaw.Shared.{
  ℕ, ◌+◌, Bool, true, false, ◌&&◌, List, [], ◌∷◌, ◌++◌, String, Option, none, some, str_eq, ltb,
  leb, length, if◌then◌else◌,
}

-- `db.AsyncWriteSpec`.
pub record Spec : Type 0 where
  pub job_type : String
  pub target_table : String
  pub state : String
  pub payload : Json

-- The two limits of `db.EffectiveRuntimeLimits` that are read.
pub record Limits : Type 0 where
  pub max_async_payload_bytes : ℕ
  pub async_degrade_threshold_bytes : ℕ

abbrev pub exceeds : ℕ → ℕ → Bool
exceeds size limit = ltb 0 limit && ltb limit size

abbrev count_of : ℕ → Json
count_of n = number (pos n) (decimal n)

abbrev pub with_state : Spec → Spec
with_state spec = record spec { state = if str_eq spec.state "" then "queued" else spec.state }

-- What the writer and the table of jobs hold; `dropped` is `async_write_dropped_total`: the writes that
-- the store refuses, and those whose payload is too large, for which a marker is written.
pub record Writer : Type 0 where
  pub queue : List Spec
  pub capacity : ℕ
  pub stored : List Spec
  pub dropped : ℕ
  pub faults : List Bool

-- What `prepare` makes of a payload that is too large: a marker, which is written in its place.
abbrev pub dropped_marker : ℕ → Spec → Spec
dropped_marker size spec = record spec {
  state = "dropped";
  payload = object (
      field "dropped" (boolean true)
        (field "original_bytes" (count_of size) (field "job_type" (text spec.job_type) end)));
}

abbrev pub degraded : ℕ → Spec → Spec
degraded size spec = record spec {
  state = "queued";
  target_table = "degraded";
  payload = object (
      field "event_type" (text "async_write_degraded") (
        field "payload"
          (object (
            field "degraded" (boolean true)
              (field "original_bytes" (count_of size) (field "job_type" (text spec.job_type) end))))
          end));
}

-- `prepare`; `size` is the length of the payload in JSON.
unfoldable pub prepare : Limits → ℕ → Spec → Writer → Spec × Writer
unfolding decimal
prepare limits size spec w =
    if exceeds size limits.max_async_payload_bytes
    then (dropped_marker size spec, record w { dropped = w.dropped + 1 })
    else if exceeds size limits.async_degrade_threshold_bytes
    then (degraded size spec, w)
    else (with_state spec, w)

-- `EnqueueAsyncWrite` of the store, with what the writer does on its error.
abbrev insert : Spec → Writer → List Bool → Bool × Writer
insert spec w [] = (true, record w { stored = w.stored ++ spec ∷ [] })
insert spec w (b ∷ bs) =
    if b
    then (false, record w { dropped = w.dropped + 1; faults = bs })
    else (true, record w { stored = w.stored ++ spec ∷ []; faults = bs })

unfoldable pub enqueue_async_write : Spec → Writer → Bool × Writer
enqueue_async_write spec w = insert spec w w.faults

abbrev pub place : Spec × Writer → Writer
place (ready, w) =
    if ltb (length w.queue) w.capacity
    then record w { queue = w.queue ++ ready ∷ [] }
    else (enqueue_async_write ready w).1

-- `Enqueue`: into the channel if it has room, and else into the store.
unfoldable pub enqueue : Limits → ℕ → Spec → Writer → Writer
unfolding prepare enqueue_async_write
enqueue limits size spec w = place (prepare limits size spec w)

-- How many writes were flushed, and whether an error is returned.
abbrev pub drained : (Writer → ℕ × Bool × Writer) → Bool × Writer → ℕ × Bool × Writer
drained next (false, w) = (0, true, w)
drained next (true, w) = let (n, e, v) = next w in (n + 1, e, v)

-- The first loop of `RunOnce`: the channel is emptied into the store.
unfoldable pub drain : List Spec → Writer → ℕ × Bool × Writer
unfolding enqueue_async_write
drain [] w = (0, false, record w { queue = [] })
drain (spec ∷ specs) w =
    drained (drain specs) (enqueue_async_write spec (record w { queue = specs }))

-- What `RunOnce` reads of `db.AsyncWriteJob`.
pub record Job : Type 0 where
  pub id : ℕ
  pub attempts : ℕ
  pub target_table : String
  pub job_state : String

-- `stateAfterApply`.
unfoldable pub state_after_apply : Job → String
state_after_apply job =
    if str_eq job.target_table "degraded"
    then "degraded"
    else if str_eq job.job_state "dropped"
    then "dropped"
    else "completed"

-- What is done with a job: `CompleteAsyncWriteJob`, `ReleaseAsyncWriteJob`, whose calls may fail too.
pub data Step : Type 0 where
  complete_job : Job → String → Step
  release_job : Job → Step

-- The second loop of `RunOnce`, over the claimed jobs: the steps that are taken, how many jobs are
-- flushed and whether an error is returned. `applies` and `completes` say whether the calls work.
unfoldable pub run_jobs : ℕ → (Job → Bool) → (Job → Bool) → List Job → List Step × ℕ × Bool
unfolding state_after_apply
run_jobs max_attempts applies completes [] = ([], 0, false)
run_jobs max_attempts applies completes (job ∷ jobs) =
    let rest = run_jobs max_attempts applies completes jobs in
    if applies job
    then if completes job
      then (complete_job job (state_after_apply job) ∷ rest.0, rest.1 + 1, rest.2)
      else (complete_job job (state_after_apply job) ∷ [], 0, true)
    else if ltb 0 max_attempts && leb max_attempts job.attempts
    then (complete_job job "failed" ∷ [], 0, true)
    else (release_job job ∷ [], 0, true)

abbrev pub then_claim :
    ℕ
    → (Job → Bool)
    → (Job → Bool)
    → Option (List Job)
    → ℕ × Bool × Writer
    → List Step × ℕ × Bool × Writer
then_claim max_attempts applies completes claimed (n, true, w) = ([], n, true, w)
then_claim max_attempts applies completes none (n, false, w) = ([], n, true, w)
then_claim max_attempts applies completes (some jobs) (n, false, w) =
    let (steps, m, e) = run_jobs max_attempts applies completes jobs in (steps, n + m, e, w)

-- `RunOnce`, with the jobs that are claimed, none where the claim fails.
unfoldable pub run_once :
    ℕ → (Job → Bool) → (Job → Bool) → Option (List Job) → Writer → List Step × ℕ × Bool × Writer
unfolding drain run_jobs
run_once max_attempts applies completes claimed w =
    then_claim max_attempts applies completes claimed (drain w.queue w)
