-- ===== src/Journal/History.antt =====
-- What an operation of the journal may do to a step that is already stored
-- (src/evm_inventory/journal.py).
pub mod Paths
pub mod Later
pub mod Steps
pub mod Intents
pub mod Others
pub mod Events
pub mod StepEvents
pub mod Durable
