-- ===== src/Rollouts.antt =====
-- Rollouts: nemo_rl/experience/rollouts.py. A policy talks to the environments of its tasks, turn by
-- turn.
pub mod Rewards
pub mod Sample
pub mod Sliding
pub mod Batch
mod Examples
