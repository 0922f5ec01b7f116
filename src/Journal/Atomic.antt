-- ===== src/Journal/Atomic.antt =====
-- The atomicity of the operations of the journal, by their table (src/evm_inventory/journal.py).
pub mod Groups
pub mod Positions
pub mod Steps
pub mod Recovery
