-- ===== src/Outbound/Worker/Delivered.antt =====
-- An item is completed only after the sink has handled it, and the worker counts what it completes.
use duraclaw.Outbound.{Item}
use duraclaw.Outbound.Groups.{TopicGroup, group_by_topic}
use duraclaw.Outbound.Worker.{
  Effect, handled, handled_batch, completed, released, Outbox, after_sink, call_sink, after_store,
  complete_outbox, release_outbox, Ran, plus, on_success, then_completed, then_handled,
  run_single_items, complete_all, release_all, ids, then_batch, run_group, run_groups,
  run_batch_items, supports_any_topic, run_each, run_once,
}
use duraclaw.Shared.{
  ℕ, ◌+◌, ◌≡◌, refl, sym, ap, subst, ◌∙◌, inl, inr, ◌⊎◌, arith, Bool, true, false, List, [], ◌∷◌,
  String, Option, none, some, In, Bool-cases, if◌then◌else◌,
}

-- The sink has handled an item, alone or in a batch.
abbrev pub Handled : ℕ → List Effect → Type 0
Handled id [] = ⊥
Handled id (handled k ∷ es) = (id ≡ k) ⊎ Handled id es
Handled id (handled_batch t ks ∷ es) = In id ks ⊎ Handled id es
Handled id (completed k ∷ es) = Handled id es
Handled id (released k ∷ es) = Handled id es

-- Every completed item was handled before.
abbrev pub Accounted : List Effect → Type 0
Accounted [] = Unit
Accounted (completed id ∷ es) = Handled id es × Accounted es
Accounted (handled k ∷ es) = Accounted es
Accounted (handled_batch t ks ∷ es) = Accounted es
Accounted (released k ∷ es) = Accounted es

abbrev pub completions : List Effect → ℕ
completions [] = 0
completions (completed id ∷ es) = completions es + 1
completions (handled k ∷ es) = completions es
completions (handled_batch t ks ∷ es) = completions es
completions (released k ∷ es) = completions es

-- What a part of the worker leaves: all accounted for, and as many completions more as it says.
pub record Kept (n : ℕ) (r : Ran × Outbox) : Type 0 where
  pub accounted : Accounted r.1.trace
  pub counted : completions r.1.trace ≡ n + r.0.count

nothing_done :
    (n : ℕ) (b : Bool) (w : Outbox)
    → Accounted w.trace
    → completions w.trace ≡ n
    → Kept n (record { count = 0; is_error = b }, w)
nothing_done n b w a c = record { accounted = a; counted = ground (arith, c) }

plus-Kept : (n m : ℕ) (r : Ran × Outbox) → Kept (n + m) r → Kept n (plus m r)
plus-Kept n m (r, w) k = record { accounted = k.accounted; counted = omega (arith, k.counted) }

on_success-Kept :
    (n : ℕ) (next : Outbox → Ran × Outbox) (r : Ran × Outbox)
    → ((m : ℕ) (w : Outbox) → Accounted w.trace → completions w.trace ≡ m → Kept m (next w))
    → Kept n r
    → Kept n (on_success next r)
on_success-Kept n next (r, w) h k = choose r.is_error
  where
    choose : (b : Bool) → Kept n (if b then (r, w) else plus r.count (next w))
    choose true = k
    choose false = plus-Kept n r.count (next w) (h (n + r.count) w k.accounted k.counted)

-- The completion of an item that was handled, when what follows is right.
complete-Kept :
    (n id : ℕ) (next : Outbox → Ran × Outbox) (w : Outbox)
    → Handled id w.trace
    → Accounted w.trace
    → completions w.trace ≡ n
    → ((v : Outbox)
        → ((k : ℕ) → Handled k w.trace → Handled k v.trace)
        → Accounted v.trace
        → completions v.trace ≡ n + 1
        → Kept (n + 1) (next v))
    → Kept n (then_completed next (complete_outbox id w))
unfolding complete_outbox
complete-Kept n id next w d a c h = go w.store_faults
  where
    go : (bs : List Bool) → Kept n (then_completed next (after_store (completed id) w bs))
    go [] =
        plus-Kept n 1 (next (record w { trace = completed id ∷ w.trace }))
          (h (record w { trace = completed id ∷ w.trace }) (λ k x. x) (d, a) (ground (arith, c)))
    go (true ∷ bs) = nothing_done n true (record w { store_faults = bs }) a c
    go (false ∷ bs) =
        plus-Kept n 1 (next (record w { trace = completed id ∷ w.trace; store_faults = bs })) (
          h (record w { trace = completed id ∷ w.trace; store_faults = bs }) (λ k x. x) (d, a)
            (ground (arith, c)))

release-Kept :
    (n id : ℕ) (w : Outbox)
    → Accounted w.trace
    → completions w.trace ≡ n
    → Accounted (release_outbox id w).trace × (completions (release_outbox id w).trace ≡ n)
unfolding release_outbox
release-Kept n id w a c = go w.store_faults
  where
    go :
        (bs : List Bool)
        → Accounted (after_store (released id) w bs).1.trace
          × (completions (after_store (released id) w bs).1.trace ≡ n)
    go [] = (a, c)
    go (true ∷ bs) = (a, c)
    go (false ∷ bs) = (a, c)

run_single_items-Kept :
    (items : List Item) (n : ℕ) (w : Outbox)
    → Accounted w.trace
    → completions w.trace ≡ n
    → Kept n (run_single_items items w)
unfolding run_single_items call_sink
run_single_items-Kept [] n w a c = nothing_done n false w a c
run_single_items-Kept (i ∷ items) n w a c =
    go (λ m v b d. run_single_items-Kept items m v b d) w.sink_faults
  where
    handled_now :
        (v : Outbox)
        → v.trace ≡ handled i.id ∷ w.trace
        → ((m : ℕ) (u : Outbox)
            → Accounted u.trace
            → completions u.trace ≡ m
            → Kept m (run_single_items items u))
        → Kept n (then_completed (run_single_items items) (complete_outbox i.id v))
    handled_now v e rest =
        complete-Kept n i.id (run_single_items items) v (subst (Handled i.id) (sym e) (inl refl))
          (subst Accounted (sym e) a) (ap completions e ∙ c) (λ u s b d. rest (n + 1) u b d)

    go :
        ((m : ℕ) (u : Outbox)
          → Accounted u.trace
          → completions u.trace ≡ m
          → Kept m (run_single_items items u))
        → (bs : List Bool)
        → Kept n (then_handled i.id (run_single_items items) (after_sink (handled i.id) w bs))
    go rest [] = handled_now (record w { trace = handled i.id ∷ w.trace }) refl rest
    go rest (false ∷ bs) =
        handled_now (record w { trace = handled i.id ∷ w.trace; sink_faults = bs }) refl rest
    go rest (true ∷ bs) =
        let v = record w { sink_faults = bs } in
        let k = release-Kept n i.id v a c in nothing_done n true (release_outbox i.id v) k.0 k.1

complete_all-Kept :
    (items : List Item) (n : ℕ) (w : Outbox)
    → ((k : ℕ) → In k (ids items) → Handled k w.trace)
    → Accounted w.trace
    → completions w.trace ≡ n
    → Kept n (complete_all items w)
unfolding complete_all
complete_all-Kept [] n w d a c = nothing_done n false w a c
complete_all-Kept (i ∷ items) n w d a c =
    complete-Kept n i.id (complete_all items) w (d i.id (inl refl)) a c
      (λ v s b e. complete_all-Kept items (n + 1) v (λ k m. s k (d k (inr m))) b e)

release_all-Kept :
    (items : List Item) (n : ℕ) (w : Outbox)
    → Accounted w.trace
    → completions w.trace ≡ n
    → Accounted (release_all items w).trace × (completions (release_all items w).trace ≡ n)
unfolding release_all
release_all-Kept [] n w a c = (a, c)
release_all-Kept (i ∷ items) n w a c =
    let k = release-Kept n i.id w a c in release_all-Kept items n (release_outbox i.id w) k.0 k.1

run_group-Kept :
    (supports : String → Bool) (g : TopicGroup) (n : ℕ) (w : Outbox)
    → Accounted w.trace
    → completions w.trace ≡ n
    → Kept n (run_group supports g w)
unfolding call_sink
run_group-Kept supports g n w a c = elim (Bool-cases (supports g.topic)) [
  | inr f ↦ rw (f, run_group) (run_single_items-Kept g.items n w a c)
  | inl t ↦ rw (t, run_group) (go w.sink_faults)
]
  where
    batch : Effect
    batch = handled_batch g.topic (ids g.items)

    go : (bs : List Bool) → Kept n (then_batch g.items (after_sink batch w bs))
    go [] = complete_all-Kept g.items n (record w { trace = batch ∷ w.trace }) (λ k m. inl m) a c
    go (false ∷ bs) =
        complete_all-Kept g.items n (record w { trace = batch ∷ w.trace; sink_faults = bs })
          (λ k m. inl m) a c
    go (true ∷ bs) =
        let k = release_all-Kept g.items n (record w { sink_faults = bs }) a c in
        nothing_done n true (release_all g.items (record w { sink_faults = bs })) k.0 k.1

run_groups-Kept :
    (supports : String → Bool) (gs : List TopicGroup) (n : ℕ) (w : Outbox)
    → Accounted w.trace
    → completions w.trace ≡ n
    → Kept n (run_groups supports gs w)
unfolding run_groups
run_groups-Kept supports [] n w a c = nothing_done n false w a c
run_groups-Kept supports (g ∷ gs) n w a c =
    go (λ m v b d. run_groups-Kept supports gs m v b d) g.items
  where
    go :
        ((m : ℕ) (v : Outbox)
          → Accounted v.trace
          → completions v.trace ≡ m
          → Kept m (run_groups supports gs v))
        → (items : List Item)
        → Kept n (elim items [
          | [] ↦ run_groups supports gs w
          | i ∷ rest ↦ on_success (run_groups supports gs) (run_group supports g w)
        ])
    go rest [] = rest n w a c
    go rest (i ∷ items) =
        on_success-Kept n (run_groups supports gs) (run_group supports g w) rest
          (run_group-Kept supports g n w a c)

run_each-Kept :
    (items : List Item) (n : ℕ) (w : Outbox)
    → Accounted w.trace
    → completions w.trace ≡ n
    → Kept n (run_each items w)
unfolding run_each
run_each-Kept [] n w a c = nothing_done n false w a c
run_each-Kept (i ∷ items) n w a c =
    on_success-Kept n (run_each items) (run_single_items (i ∷ []) w)
      (λ m v b d. run_each-Kept items m v b d) (run_single_items-Kept (i ∷ []) n w a c)

-- From a trace on which every completed item was handled before, `RunOnce` goes to such a trace,
-- whatever the sink and the store do, and the count that it returns is that of the items it completed.
pub run_once-Kept :
    (batch : Option (String → Bool)) (claimed : Option (List Item)) (w : Outbox)
    → Accounted w.trace
    → Kept (completions w.trace) (run_once batch claimed w)
unfolding run_once run_batch_items
run_once-Kept batch none w a = nothing_done (completions w.trace) true w a refl
run_once-Kept none (some items) w a = run_each-Kept items (completions w.trace) w a refl
run_once-Kept (some supports) (some items) w a =
    elim (Bool-cases (supports_any_topic supports items)) [
      | inl t ↦
          rw t (run_groups-Kept supports (group_by_topic items) (completions w.trace) w a refl)
      | inr f ↦ rw f (run_each-Kept items (completions w.trace) w a refl)
    ]
