-- ===== src/Journal.antt =====
-- src/evm_inventory/journal.py: the durable state of groups, positions, steps, events and
-- operations. The operations are in the modules named for the tables; `Ledger` runs any of them.
pub mod States
pub mod Value
pub mod Tables
pub mod Session
pub mod Inputs
pub mod Operations
pub mod Groups
pub mod Positions
pub mod Steps
pub mod Checkpoints
pub mod Reactivation
pub mod History
pub mod Atomic
pub mod Ledger
