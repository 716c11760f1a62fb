-- ===== src/Outbound/Groups.antt =====
-- `groupByTopic` (internal/outbound/outbox_worker.go).
pub mod Laws
use duraclaw.Outbound.{Item}
use duraclaw.Shared.{Bool, List, [], ◌∷◌, ◌++◌, String, str_eq, if◌then◌else◌}

pub record TopicGroup : Type 0 where
  pub topic : String
  pub items : List Item

-- An item without a topic goes under "default".
abbrev pub topic_of : Item → String
topic_of item = if str_eq item.topic "" then "default" else item.topic

-- One turn of the loop; the map `positions` finds the group of the topic.
unfoldable pub add_item : Item → List TopicGroup → List TopicGroup
add_item item [] = record { topic = topic_of item; items = item ∷ [] } ∷ []
add_item item (g ∷ gs) =
    let rest = add_item item gs in
    if str_eq g.topic (topic_of item)
    then record g { items = g.items ++ item ∷ [] } ∷ gs
    else g ∷ rest

unfoldable pub group_from : List TopicGroup → List Item → List TopicGroup
unfolding add_item
group_from groups [] = groups
group_from groups (item ∷ items) = group_from (add_item item groups) items

-- `groupByTopic`.
unfoldable pub group_by_topic : List Item → List TopicGroup
unfolding group_from
group_by_topic items = group_from [] items
