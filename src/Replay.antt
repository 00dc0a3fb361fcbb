-- ===== src/Replay.antt =====
-- Asynchronous training: the replay buffer and the collector that fills it, of
-- nemo_rl/algorithms/async_utils.py.
pub mod Buffer
pub mod Collector
mod Examples
