-- ===== src/Journal/States.antt =====
-- The state machines of src/evm_inventory/journal.py.
pub mod Groups
pub mod Positions
pub mod Steps
