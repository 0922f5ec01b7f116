-- ===== src/Scan.antt =====
-- A scanner's buffer of one wallet on one network, and the part of the store that it is saved into
-- (src/evm_inventory/scan_buffer.py, src/evm_inventory/store.py).
pub mod Store
pub mod Buffer
pub mod Relation
pub mod Framed
pub mod Appended
pub mod Simulated
pub mod Loaded
pub mod Upserts
pub mod Simulation
pub mod Refinement
pub mod Networks
