-- ===== src/Ledger.antt =====
-- The posting of money movements (Api/src/modules/transactions).
pub mod Store
pub mod Plan
pub mod Execute
pub mod Post
pub mod Invariant
pub mod Safety
pub mod Idempotency
pub mod Reversal
pub mod Locks
pub mod Transfers
