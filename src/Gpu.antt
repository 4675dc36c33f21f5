-- ===== src/Gpu.antt =====
-- src/services/gpu-usage.ts: shared-GPU time in buckets of one UTC hour.
pub mod Buckets
pub mod Spec
pub mod Settle
pub mod Reads
pub mod Shares
pub mod Ledger
pub mod Sweep
pub mod Usage
pub mod Tests
