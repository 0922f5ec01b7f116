-- ===== src/Executor.antt =====
-- src/evm_inventory/executor.py: the checks before a signature, and the durable broadcast.
pub mod Request
pub mod Gas
pub mod Broadcast
pub mod Receipt
