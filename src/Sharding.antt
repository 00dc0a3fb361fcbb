-- ===== src/Sharding.antt =====
-- Sharding of a batch over data-parallel ranks: nemo_rl/distributed/batched_data_dict.py.
pub mod Batch
pub mod Plain
pub mod Dynamic
pub mod Packed
pub mod Microbatches
mod Examples
