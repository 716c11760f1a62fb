-- ===== src/AsyncWrite/Conserved.antt =====
-- No write is lost without being counted.
use duraclaw.AsyncWrite.{
  Spec, Limits, prepare, exceeds, dropped_marker, degraded, with_state, place, Writer, insert,
  enqueue_async_write, enqueue, drained, drain, Job, then_claim, run_once,
}
use duraclaw.Shared.{
  ℕ, ◌+◌, ◌<◌, ◌≡◌, refl, sym, ap, subst, ◌∙◌, inl, inr, arith, Bool, true, false, List, [], ◌∷◌,
  Option, none, some, length, length-append, ltb, Bool-cases, if◌then◌else◌,
}

-- The writes that are in the channel, in the store, or counted as dropped.
abbrev pub writes : Writer → ℕ
writes w = length w.queue + (length w.stored + w.dropped)

insert-writes :
    (spec : Spec) (w : Writer) (bs : List Bool) → writes (insert spec w bs).1 ≡ writes w + 1
insert-writes spec w [] = omega (arith, length-append w.stored (spec ∷ []))
insert-writes spec w (true ∷ bs) = omega arith
insert-writes spec w (false ∷ bs) = omega (arith, length-append w.stored (spec ∷ []))

place-writes : (ready : Spec) (w : Writer) → writes (place (ready, w)) ≡ writes w + 1
unfolding enqueue_async_write
place-writes ready w = elim (Bool-cases (ltb (length w.queue) w.capacity)) [
  | inl t ↦ rw t (omega (arith, length-append w.queue (ready ∷ [])))
  | inr f ↦ rw f (insert-writes ready w w.faults)
]

-- The payload is over a limit that there is.
abbrev pub Oversized : Limits → ℕ → Type 0
Oversized limits size =
    (0 < limits.max_async_payload_bytes) × (limits.max_async_payload_bytes < size)

-- `Enqueue` adds one write to those in the channel, in the store or counted as dropped: none is lost
-- without being counted. A write whose payload is too large adds two: it is counted as dropped, and its
-- marker is a write of its own.
pub enqueue-writes :
    (limits : Limits) (size : ℕ) (spec : Spec) (w : Writer)
    → (Oversized limits size → writes (enqueue limits size spec w) ≡ writes w + 2)
      × ((Oversized limits size → ⊥) → writes (enqueue limits size spec w) ≡ writes w + 1)
unfolding enqueue prepare
enqueue-writes limits size spec w =
    elim (Bool-cases (exceeds size limits.max_async_payload_bytes)) [
      | inl t ↦ rw t (
        (λ over. omega (arith, place-writes (dropped_marker size spec) counted)),
        (λ fits. absurd (fits (ground arith, ground arith))),
      )
      | inr f ↦ rw f ((λ over. absurd (apart over f)), (λ fits. passes _))
    ]
  where
    counted : Writer
    counted = record w { dropped = w.dropped + 1 }

    apart : Oversized limits size → exceeds size limits.max_async_payload_bytes ≡ false → ⊥
    apart over f = ground arith

    passes :
        (b : Bool)
        → writes (place (if b then (degraded size spec, w) else (with_state spec, w)))
          ≡ writes w + 1
    passes true = place-writes (degraded size spec) w
    passes false = place-writes (with_state spec) w

insert-queue : (spec : Spec) (w : Writer) (bs : List Bool) → (insert spec w bs).1.queue ≡ w.queue
insert-queue spec w [] = refl
insert-queue spec w (true ∷ bs) = refl
insert-queue spec w (false ∷ bs) = refl

drain-writes :
    (specs : List Spec) (w : Writer) → w.queue ≡ specs → writes (drain specs w).2 ≡ writes w
unfolding drain enqueue_async_write
drain-writes [] w e = ap (λ q. length q + (length w.stored + w.dropped)) (sym e)
drain-writes (spec ∷ specs) w e =
    go (λ v q. drain-writes specs v q) (insert spec one_less w.faults)
      (insert-queue spec one_less w.faults)
    ∙ insert-writes spec one_less w.faults
    ∙ same
  where
    one_less : Writer
    one_less = record w { queue = specs }

    same : writes one_less + 1 ≡ writes w
    same =
        subst
          (λ q.
            (length specs + (length w.stored + w.dropped)) + 1
            ≡ length q + (length w.stored + w.dropped))
          (sym e) (ground (arith))

    go :
        ((v : Writer) → v.queue ≡ specs → writes (drain specs v).2 ≡ writes v)
        → (r : Bool × Writer) → r.1.queue ≡ specs
        → writes (drained (drain specs) r).2 ≡ writes r.1
    go rest (false, v) q = refl
    go rest (true, v) q = rest v q

-- `RunOnce` loses no write: those in the channel, in the store or counted as dropped are as many
-- after it as before, whatever fails; so a write that the store refuses is counted.
pub run_once-writes :
    (max_attempts : ℕ) (applies completes : Job → Bool) (claimed : Option (List Job)) (w : Writer)
    → writes (run_once max_attempts applies completes claimed w).3 ≡ writes w
unfolding run_once
run_once-writes max_attempts applies completes claimed w =
    go claimed (drain w.queue w) ∙ drain-writes w.queue w refl
  where
    go :
        (claimed : Option (List Job)) (r : ℕ × Bool × Writer)
        → writes (then_claim max_attempts applies completes claimed r).3 ≡ writes r.2
    go claimed (n, true, v) = refl
    go none (n, false, v) = refl
    go (some jobs) (n, false, v) = refl
