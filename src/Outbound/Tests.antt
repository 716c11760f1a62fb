-- ===== src/Outbound/Tests.antt =====
-- The outbox worker on a few items.
use duraclaw.Outbound.{Item}
use duraclaw.Outbound.Groups.{group_by_topic}
use duraclaw.Outbound.Groups.Laws.{Grouped, group_by_topic-Grouped}
use duraclaw.Outbound.Worker.{Outbox, completed, handled, handled_batch, released, run_once}
use duraclaw.Outbound.Worker.Delivered.{Kept, completions, run_once-Kept}
use duraclaw.Shared.{◌≡◌, refl, true, false, List, [], ◌∷◌, some, none, str_eq}

abbrev items : List Item
items =
    record { id = 1; topic = "mail" }
    ∷ record { id = 2; topic = "" }
    ∷ record { id = 3; topic = "mail" }
    ∷ []

abbrev start : Outbox
start = record { trace = []; sink_faults = false ∷ true ∷ []; store_faults = [] }

-- Mail goes in a batch, and the sink fails on the other item.
mail_only :
    (run_once (some (λ t. str_eq t "mail")) (some items) start).1.trace
    ≡ released 2 ∷ completed 3 ∷ completed 1 ∷ handled_batch "mail" (1 ∷ 3 ∷ []) ∷ []
unfolding run_once
mail_only = refl

one_by_one : (run_once none (some items) start).1.trace ≡ released 2 ∷ completed 1 ∷ handled 1 ∷ []
unfolding run_once
one_by_one = refl

group_by_topic-Grouped_example : Grouped items (group_by_topic items)
group_by_topic-Grouped_example = group_by_topic-Grouped items

run_once-Kept_example :
    Kept (completions []) (run_once (some (λ t. str_eq t "mail")) (some items) start)
run_once-Kept_example = run_once-Kept (some (λ t. str_eq t "mail")) (some items) start tt
