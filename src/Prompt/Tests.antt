-- ===== src/Prompt/Tests.antt =====
-- Compaction of a small conversation.
use duraclaw.Json.{pos}
use duraclaw.Prompt.{Message, compact_messages}
use duraclaw.Prompt.Laws.{Compacts, compact_messages-Compacts}
use duraclaw.Shared.{◌≡◌, refl, arith, List, [], ◌∷◌}

abbrev talk : List Message
talk =
    record { role = "user"; content = "old old old" }
    ∷ record { role = "assistant"; content = "middle middle" }
    ∷ record { role = "user"; content = "new" }
    ∷ []

talk_omits : (compact_messages talk (pos 20)).omitted ≡ 2
unfolding compact_messages
talk_omits = refl

talk_note :
    (compact_messages talk (pos 20)).messages
    ≡ record { role = "system"; content = "[Earlier conversation compacted: 2 messages omitted.]" }
      ∷ record { role = "user"; content = "new" }
      ∷ []
unfolding compact_messages
talk_note = refl

compact_messages-Compacts_example : Compacts talk 20 (compact_messages talk (pos 20))
compact_messages-Compacts_example = compact_messages-Compacts talk 20 (ground arith)
