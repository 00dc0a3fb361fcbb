-- ===== src/Lib.antt =====
-- NeMo RL: the bookkeeping between the training loop, the generation workers and the data-parallel
-- ranks.
--
-- A training step takes a batch of rows of different lengths and splits it over the data-parallel
-- ranks; to waste little padding, the rows are packed into bins or put into microbatches of a
-- bounded number of tokens, and the results are brought back into the order of the batch. In
-- asynchronous training the batches come from a replay buffer that a collector fills, ahead of the
-- trainer, with prompt groups generated by older weights. A rollout lets the policy talk to the
-- environments of its tasks, of which the sliding puzzle is one, turn by turn. After some steps a checkpoint is
-- written, and old ones are removed.
--
-- Packing: nemo_rl/data/packing/algorithms.py. Packing.Packer has the packer's fields, its checks
-- and the error values; Packing.Concatenative, Packing.FirstFit and Packing.Mffd are the
-- `_pack_implementation` of the packers, Packing.Adjust is `_adjust_bin_count`, Packing.Pack is
-- `pack` and `get_packer`. The children Sound, Packs, Tight, Order, Moves, Counts and Bins hold the
-- proofs. A shuffle is a parameter: a function that gives a permutation of its argument. The
-- comparisons with C / 2, C / 3 and C / 6 are multiplied out. The binary search and the greedy
-- filling of a bin run on fuel, which is the length of the list they consume: each round removes an
-- element or halves the range.
--
-- Sharding: nemo_rl/distributed/batched_data_dict.py. A batch is a list of named columns, each a
-- list of rows, for tensors and for lists alike. Sharding.Batch has the operations on rows,
-- `chunk` and `reorder_data`; Sharding.Plain is `shard_by_batch_size` without sorting;
-- Sharding.Dynamic is its branch for dynamic batching, with the microbatches. A batch without
-- rows, where Python divides by zero, is the error `zero_division`. Sharding.Packed is its branch
-- for sequence packing, which calls Packing.Pack for each chunk and deals the bins to the shards.
-- Sharding.Microbatches is `make_microbatch_iterator`, on tensors.
--
-- Replay: nemo_rl/algorithms/async_utils.py. Replay.Buffer is `ReplayBuffer`: three parallel lists,
-- as in the source, and `sample` with every early return; Replay.Buffer.Rows relates the three
-- lists to one list of entries, and Replay.Buffer.Reachable has the calls as a step relation.
-- Each method holds the lock for its whole body, so any interleaving of callers is a sequence of
-- such steps. Replay.Collector is the part of `AsyncTrajectoryCollector` that chooses what to
-- generate for. The workers, Ray and the rollouts are not modelled.
--
-- Checkpoint: nemo_rl/utils/checkpoint.py. The checkpoint directory is a list of directories with
-- a name, a training info and their content. The floats of the metrics are a parameter with the
-- comparisons that the sort keys use. Writing the files is not modelled.
--
-- Puzzle: nemo_rl/environments/games/sliding_puzzle.py. Puzzle.Board has the grid, Puzzle.Game is
-- `SlidingPuzzleGameLogic` (`generate` and `step`), Puzzle.Turn the parsing of the action and
-- `SlidingPuzzleRunner.process_turn`. The random choices are a list of numbers, one for each move of
-- the shuffle; `split` and `int` of Python are parameters; a text is the list of its codes, with
-- the lower case and the white space of ASCII. The texts that the game answers with are
-- constructors.
--
-- Rollouts: nemo_rl/experience/rollouts.py. Rollouts.Rewards is `calculate_rewards`, Rollouts.Sample
-- is `run_sample_multi_turn_rollout`, Rollouts.Batch is `run_multi_turn_rollout`, and
-- Rollouts.Sliding is `SlidingPuzzleEnv.step` for one sample, which joins the rollout to the puzzle.
-- Rollouts.Batch keeps the lists of the active samples apart from the batch, which they index, and
-- its engine and `calculate_rewards` are functions on lists; Rollouts.Batch.Lanes says what one
-- sample gets by itself, and Rollouts.Batch.Round goes through the loops of a round.
-- The engine, the tokenizer and the environments are parameters; a reward is one value, added by a
-- parameter. A rollout takes at most `max_rollout_turns` turns, and the loops are recursive on that
-- number. The metrics and rewards of several components are not modelled.
--
-- Base has the lists, weights, results and sorts that the components share. A sum of weights over
-- a list is how the development says that two lists hold the same elements equally often.
--
-- Not modelled: the tensor arithmetic of the losses and the models, the engines and libraries they
-- wrap, Ray, the datasets, the other environments, and logging.
pub mod Base
pub mod Checkpoint
pub mod Packing
pub mod Puzzle
pub mod Replay
pub mod Rollouts
pub mod Sharding
