-- ===== src/Outbound.antt =====
-- The outbox worker (internal/outbound/outbox_worker.go): what it claims, and the parts of it.
pub mod Groups
pub mod Worker
mod Tests
use duraclaw.Shared.{ℕ, String}

-- What the worker reads of `db.OutboxItem`.
pub record Item : Type 0 where
  pub id : ℕ
  pub topic : String
