-- ===== src/AsyncWrite/Tests.antt =====
-- The writer on a few writes.
use duraclaw.AsyncWrite.{Spec, Limits, Writer, Job, enqueue, run_jobs, run_once}
use duraclaw.AsyncWrite.Conserved.{writes, Oversized, enqueue-writes, run_once-writes}
use duraclaw.AsyncWrite.Retried.{AreRight, run_jobs-AreRight}
use duraclaw.Json.{null}
use duraclaw.Shared.{◌≡◌, ◌+◌, refl, Bool, true, List, [], ◌∷◌, some, ◌==◌}

abbrev write : Spec
write = record { job_type = "run_event"; target_table = ""; state = ""; payload = null }

abbrev limits : Limits
limits = record { max_async_payload_bytes = 100; async_degrade_threshold_bytes = 10 }

-- Room for one write, which waits already, and a store that fails once.
abbrev full : Writer
full = record { queue = write ∷ []; capacity = 1; stored = []; dropped = 0; faults = true ∷ [] }

abbrev jobs : List Job
jobs =
    record { id = 1; attempts = 0; target_table = "degraded"; job_state = "queued" }
    ∷ record { id = 2; attempts = 5; target_table = ""; job_state = "queued" }
    ∷ []

abbrev only_first : Job → Bool
only_first job = job.id == 1

jobs_run : (run_jobs 5 only_first (λ j. true) jobs).1 ≡ 1
unfolding run_jobs
jobs_run = refl

full_drops : (enqueue limits 4 write full).dropped ≡ 1
unfolding enqueue
full_drops = refl

enqueue-writes_example :
    (Oversized limits 200 → writes (enqueue limits 200 write full) ≡ writes full + 2)
    × ((Oversized limits 200 → ⊥) → writes (enqueue limits 200 write full) ≡ writes full + 1)
enqueue-writes_example = enqueue-writes limits 200 write full

-- The payload that is too large is counted, and so is its marker, which the store refuses.
oversized_counts : (enqueue limits 200 write full).dropped ≡ 2
unfolding enqueue
oversized_counts = refl

run_once-writes_example :
    writes (run_once 5 only_first (λ j. true) (some jobs) full).3 ≡ writes full
run_once-writes_example = run_once-writes 5 only_first (λ j. true) (some jobs) full

run_jobs-AreRight_example :
    AreRight 5 only_first
      (λ j. true)
      jobs
      (run_jobs 5 only_first (λ j. true) jobs).0
      (run_jobs 5 only_first (λ j. true) jobs).1
      (run_jobs 5 only_first (λ j. true) jobs).2
run_jobs-AreRight_example = run_jobs-AreRight 5 only_first (λ j. true) jobs
