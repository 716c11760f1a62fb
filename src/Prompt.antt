-- ===== src/Prompt.antt =====
-- Compaction of a conversation (internal/prompt/compact.go): the newest messages that fit a number of
-- bytes are kept, and a note stands for the others.
pub mod Laws
mod Tests
use Prim.Native.String.{◌++◌ as join, len}
use duraclaw.Json.{ℤ, pos, negsuc, decimal}
use duraclaw.Shared.{
  ℕ, zero, suc, ◌+◌, Bool, true, false, List, [], ◌∷◌, ◌++◌, String, length, ltb, leb, ◌==◌,
  if◌then◌else◌,
}

pub record Message : Type 0 where
  pub role : String
  pub content : String

pub record CompactionResult : Type 0 where
  pub messages : List Message
  pub omitted : ℕ
  pub original_chars : ℕ
  pub compacted_chars : ℕ

abbrev pub size_of : Message → ℕ
size_of m = len m.role + len m.content

-- `totalChars`.
abbrev pub total_chars : List Message → ℕ
total_chars [] = 0
total_chars (m ∷ ms) = size_of m + total_chars ms

-- `reverse`.
unfoldable pub reverse : List Message → List Message
reverse [] = []
reverse (m ∷ ms) = reverse ms ++ m ∷ []

-- The size of a message in the sum: one more for each but the first that is kept.
abbrev pub size_after : Bool → Message → ℕ
size_after some_kept m = if some_kept then size_of m + 1 else size_of m

-- The loop, over the messages from the newest on: those that are kept, and how many are not.
unfoldable pub keep_newest : ℕ → List Message → ℕ → Bool → List Message × ℕ
keep_newest max_chars [] used some_kept = ([], 0)
keep_newest max_chars (m ∷ older) used some_kept =
    let (kept, omitted) = keep_newest max_chars older (used + size_after some_kept m) true in
    if ltb max_chars (used + size_after some_kept m)
    then ([], suc (length older))
    else (m ∷ kept, omitted)

-- `pluralizeTurns` and the note.
abbrev pluralize_turns : ℕ → String
pluralize_turns n = join (decimal n) (if n == 1 then " message" else " messages")

unfoldable pub note_for : ℕ → Message
unfolding decimal
note_for n = record {
  role = "system";
  content = join "[Earlier conversation compacted: " (join (pluralize_turns n) " omitted.]");
}

abbrev pub with_note : ℕ → List Message → List Message
with_note zero kept = kept
with_note (suc n) kept = note_for (suc n) ∷ kept

abbrev pub compacted : ℕ → List Message × ℕ → CompactionResult
compacted original (newest, omitted) = record {
  messages = with_note omitted (reverse newest);
  omitted = omitted;
  original_chars = original;
  compacted_chars = total_chars (with_note omitted (reverse newest));
}

abbrev pub unchanged : List Message → CompactionResult
unchanged messages = record {
  messages = messages;
  omitted = 0;
  original_chars = total_chars messages;
  compacted_chars = total_chars messages;
}

-- `CompactMessages`.
unfoldable pub compact_messages : List Message → ℤ → CompactionResult
unfolding reverse keep_newest note_for
compact_messages messages (negsuc n) = unchanged messages
compact_messages messages (pos n) =
    if n == 0
    then unchanged messages
    else if leb (total_chars messages) n
    then unchanged messages
    else compacted (total_chars messages) (keep_newest n (reverse messages) 0 false)
