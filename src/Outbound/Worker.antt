-- ===== src/Outbound/Worker.antt =====
-- `RunOnce`, `runBatch` and `runSingleItems` of the outbox worker
-- (internal/outbound/outbox_worker.go), with the calls of the store that they make
-- (internal/db/store.go). The sink is outside the program: `sink_faults` says of each coming call of it
-- whether it fails, `store_faults` the same of the calls of the store. The trace holds what took effect,
-- the last first. The heartbeat only extends claims, and is left out.
pub mod Delivered
use duraclaw.Outbound.{Item}
use duraclaw.Outbound.Groups.{TopicGroup, group_by_topic}
use duraclaw.Shared.{
  ℕ, ◌+◌, Bool, true, false, List, [], ◌∷◌, String, Option, none, some, if◌then◌else◌,
}

pub data Effect : Type 0 where
  handled : ℕ → Effect
  handled_batch : String → List ℕ → Effect
  completed released : ℕ → Effect

pub record Outbox : Type 0 where
  pub trace : List Effect
  pub sink_faults : List Bool
  pub store_faults : List Bool

-- One call of the sink, or of the store: whether it works, and its effect if it does.
abbrev after_sink : Effect → Outbox → List Bool → Bool × Outbox
after_sink e w [] = (true, record w { trace = e ∷ w.trace })
after_sink e w (b ∷ bs) =
    if b
    then (false, record w { sink_faults = bs })
    else (true, record w { trace = e ∷ w.trace; sink_faults = bs })

unfoldable pub call_sink : Effect → Outbox → Bool × Outbox
call_sink e w = after_sink e w w.sink_faults

abbrev after_store : Effect → Outbox → List Bool → Bool × Outbox
after_store e w [] = (true, record w { trace = e ∷ w.trace })
after_store e w (b ∷ bs) =
    if b
    then (false, record w { store_faults = bs })
    else (true, record w { trace = e ∷ w.trace; store_faults = bs })

-- `CompleteOutbox`, and `ReleaseOutbox` whose error is dropped.
unfoldable pub complete_outbox : ℕ → Outbox → Bool × Outbox
complete_outbox id w = after_store (completed id) w w.store_faults

unfoldable pub release_outbox : ℕ → Outbox → Outbox
release_outbox id w = (after_store (released id) w w.store_faults).1

-- How many items were completed, and whether an error is returned.
pub record Ran : Type 0 where
  pub count : ℕ
  pub is_error : Bool

-- `completed += n`, and the return on an error.
abbrev pub plus : ℕ → Ran × Outbox → Ran × Outbox
plus n (r, w) = (record r { count = n + r.count }, w)

abbrev pub on_success : (Outbox → Ran × Outbox) → Ran × Outbox → Ran × Outbox
on_success next (r, w) = if r.is_error then (r, w) else plus r.count (next w)

-- `CompleteOutbox` of one item, and what follows it.
abbrev pub then_completed : (Outbox → Ran × Outbox) → Bool × Outbox → Ran × Outbox
then_completed next (true, w) = plus 1 (next w)
then_completed next (false, w) = (record { count = 0; is_error = true }, w)

-- What follows a call of the sink for one item.
abbrev pub then_handled : ℕ → (Outbox → Ran × Outbox) → Bool × Outbox → Ran × Outbox
then_handled id next (true, w) = then_completed next (complete_outbox id w)
then_handled id next (false, w) = (record { count = 0; is_error = true }, release_outbox id w)

-- `runSingleItems`.
unfoldable pub run_single_items : List Item → Outbox → Ran × Outbox
unfolding call_sink complete_outbox release_outbox
run_single_items [] w = (record { count = 0; is_error = false }, w)
run_single_items (i ∷ items) w =
    then_handled i.id (run_single_items items) (call_sink (handled i.id) w)

-- The loops over the items of a group that was handled, and of one that was not.
unfoldable pub complete_all : List Item → Outbox → Ran × Outbox
unfolding complete_outbox
complete_all [] w = (record { count = 0; is_error = false }, w)
complete_all (i ∷ items) w = then_completed (complete_all items) (complete_outbox i.id w)

unfoldable pub release_all : List Item → Outbox → Outbox
unfolding release_outbox
release_all [] w = w
release_all (i ∷ items) w = release_all items (release_outbox i.id w)

abbrev pub ids : List Item → List ℕ
ids [] = []
ids (i ∷ items) = i.id ∷ ids items

abbrev pub then_batch : List Item → Bool × Outbox → Ran × Outbox
then_batch items (true, w) = complete_all items w
then_batch items (false, w) = (record { count = 0; is_error = true }, release_all items w)

-- One group of `runBatch`; `supports` is `SupportsBatch` of the sink.
abbrev pub run_group : (String → Bool) → TopicGroup → Outbox → Ran × Outbox
run_group supports g w = elim (supports g.topic) [
  | false ↦ run_single_items g.items w
  | true ↦ then_batch g.items (call_sink (handled_batch g.topic (ids g.items)) w)
]

-- The loop of `runBatch`; a group without items would be left out, and there is none.
unfoldable pub run_groups : (String → Bool) → List TopicGroup → Outbox → Ran × Outbox
unfolding run_single_items complete_all release_all call_sink
run_groups supports [] w = (record { count = 0; is_error = false }, w)
run_groups supports (g ∷ gs) w = elim g.items [
  | [] ↦ run_groups supports gs w
  | i ∷ items ↦ on_success (run_groups supports gs) (run_group supports g w)
]

-- `runBatch`.
unfoldable pub run_batch_items : (String → Bool) → List Item → Outbox → Ran × Outbox
unfolding run_groups group_by_topic
run_batch_items supports items w = run_groups supports (group_by_topic items) w

-- `batchSinkSupportsAnyTopic`.
abbrev supports_one : (String → Bool) → List TopicGroup → Bool
supports_one supports [] = false
supports_one supports (g ∷ gs) = if supports g.topic then true else supports_one supports gs

unfoldable pub supports_any_topic : (String → Bool) → List Item → Bool
unfolding group_by_topic
supports_any_topic supports items = supports_one supports (group_by_topic items)

-- The loop of `RunOnce` over single items.
unfoldable pub run_each : List Item → Outbox → Ran × Outbox
unfolding run_single_items
run_each [] w = (record { count = 0; is_error = false }, w)
run_each (i ∷ items) w = on_success (run_each items) (run_single_items (i ∷ []) w)

-- `RunOnce`: the items that were claimed, none where the claim failed; a sink without batches has no
-- `SupportsBatch`.
unfoldable pub run_once : Option (String → Bool) → Option (List Item) → Outbox → Ran × Outbox
unfolding run_batch_items supports_any_topic run_each
run_once batch none w = (record { count = 0; is_error = true }, w)
run_once none (some items) w = run_each items w
run_once (some supports) (some items) w =
    if supports_any_topic supports items then run_batch_items supports items w else run_each items w
