-- ===== src/Rollouts/Examples.antt =====
-- Runs of the rollouts, and the properties at such runs.
use mathlib.Core.Path.{subst}
use nemo_rl_xtoken.Base.{
  ℕ, zero, suc, ◌+◌, ◌-◌, ◌∙◌, sym, ap, if◌then◌else◌, ◌≤◌, ◌≡◌, refl, Bool, true, false, Option,
  none, some, List, [], ◌∷◌, ◌++◌, map, arith, Result, ltb, leb, leb→le, Bool-cases, inl, inr, ok,
  err, length, take, indices_where,
}
use nemo_rl_xtoken.Base.Int.{pos}
use nemo_rl_xtoken.Base.Text.{Text, text_eq, codes}
use nemo_rl_xtoken.Puzzle.Game.{Game, generate, PythonText}
use nemo_rl_xtoken.Puzzle.Game.Solvable.{generate-IsBoard}
use nemo_rl_xtoken.Puzzle.Turn.{Message, Metadata, Observation, user, environment}
use nemo_rl_xtoken.Puzzle.Turn.Episode.{IsPlay}
use nemo_rl_xtoken.Rollouts.Rewards.{
  log_of, info_of, Request, no_environment, index_error, EnvStep, calculate_rewards,
}
use nemo_rl_xtoken.Rollouts.Rewards.Pointwise.{IsPointwise, calculate_rewards-answer}
use nemo_rl_xtoken.Rollouts.Rewards.Sorted.{map-map}
use nemo_rl_xtoken.Rollouts.Sample.{
  TokenMessage, Generation, Engine, EnvAnswer, Environment, get_or_else, SampleState, initial_state,
  rollout,
}
use nemo_rl_xtoken.Rollouts.Sample.Tokens.{
  Respects, IsAccounted, length-take_upper, rollout-IsAccounted,
}
use nemo_rl_xtoken.Rollouts.Sample.Ends.{Turns, IsEnd, rollout-IsEnd}
use nemo_rl_xtoken.Rollouts.Sliding.{sliding_env}
use nemo_rl_xtoken.Rollouts.Sliding.Reward.{IsPlaying, rollout-IsPlaying}
use nemo_rl_xtoken.Rollouts.Batch.{BatchEngine, BatchEnv, Lane, RolloutError, batch_rollout}

program : Unit {0}
unfolding calculate_rewards rollout batch_rollout generate sliding_env text_eq
    nemo_rl_xtoken.Base.flatten
program = tt

-- Two tasks. The environments add a number to the sample's.
abbrev add_to_all : ℕ → EnvStep ℕ ℕ ℕ
add_to_all k logs infos = map (λ n. n + k) logs

abbrev tasks : List (Text × EnvStep ℕ ℕ ℕ)
tasks = (codes "a", add_to_all 10) ∷ (codes "b", add_to_all 20) ∷ []

abbrev request : Text → ℕ → Request ℕ ℕ
request name n = record { task_name = name; log = n; info = 0 }

abbrev mixed : List (Request ℕ ℕ)
mixed =
    request (codes "b") 1
    ∷ request (codes "a") 2
    ∷ request (codes "b") 3
    ∷ request (codes "a") 4
    ∷ []

unknown_task : calculate_rewards 0 tasks (request (codes "c") 1 ∷ []) ≡ err no_environment
unfolding program
unknown_task = refl

-- An environment that forgets an answer.
too_few :
    calculate_rewards {O = ℕ} 0 ((codes "a", λ logs infos. []) ∷ []) (request (codes "a") 1 ∷ [])
    ≡ err index_error
unfolding program
too_few = refl

abbrev own_answer : Text → ℕ → ℕ → ℕ
own_answer name n info = n + (if text_eq (codes "a") name then 10 else 20)

tasks-IsPointwise : IsPointwise tasks own_answer
tasks-IsPointwise name step found group =
    go (text_eq (codes "a") name) (text_eq (codes "b") name) found
  where
    go :
        (a b : Bool)
        → (if a then some (add_to_all 10) else if b then some (add_to_all 20) else none) ≡ some step
        → step (map log_of group) (map info_of group)
          ≡ map (λ e. log_of e + (if a then 10 else 20)) group
    go true b e =
        sym (ap (λ o. get_or_else o (add_to_all 10) (map log_of group) (map info_of group)) e)
        ∙ map-map (λ n. n + 10) log_of group
    go false true e =
        sym (ap (λ o. get_or_else o (add_to_all 10) (map log_of group) (map info_of group)) e)
        ∙ map-map (λ n. n + 20) log_of group
    go false false e = cc

calculate_rewards-answer_example : calculate_rewards 0 tasks mixed ≡ ok (21 ∷ 12 ∷ 23 ∷ 14 ∷ [])
unfolding program
calculate_rewards-answer_example =
    calculate_rewards-answer 0 tasks own_answer tasks-IsPointwise mixed (
      (add_to_all 20, refl),
      ((add_to_all 10, refl), ((add_to_all 20, refl), ((add_to_all 10, refl), tt))),
    )

-- An engine that answers one token, as long as there is room.
abbrev brief : List ℕ → Generation
brief flat = record {
  text = codes "<action>left</action>";
  token_ids = take (9 - length flat) (7 ∷ []);
  truncated = false;
}

abbrev engine : Engine
engine = record { generate = λ flat stops. some (brief flat); tokenize = λ text. 5 ∷ 5 ∷ [] }

abbrev question : List TokenMessage
question = record { role = user; content = codes "go"; token_ids = 1 ∷ 2 ∷ [] } ∷ []

-- An environment that never ends.
abbrev endless : Environment ℕ ℕ
endless log info = record {
  observation = record { role = environment; content = codes "next" };
  metadata = some (info + 1);
  next_stop_strings = none;
  reward = 1;
  terminated = false;
}

abbrev plus : ℕ → ℕ → ℕ
plus a b = a + b

abbrev start : SampleState ℕ ℕ
start = initial_state 0 question 0 none

-- Two turns of three tokens; the third one is cut to two tokens of nine, and is the last.
cut_at_nine : (rollout plus 9 engine endless 10 start).turn_count ≡ 3
unfolding program
cut_at_nine = refl

brief-length : (flat : List ℕ) → length flat ≤ 9 → length flat + length (brief flat).token_ids ≤ 9
brief-length flat h = omega (arith, length-take_upper (9 - length flat) (7 ∷ []))

start-IsAccounted : IsAccounted 9 2 start
unfolding program
start-IsAccounted = record { counted = refl; parts = refl; bounded = omega arith }

rollout-IsEnd_example :
    let r = rollout plus 9 engine endless 10 start in
    (turns_taken : ℕ) × Turns plus 9 engine endless turns_taken start r
    × (turns_taken ≤ 10)
    × (r.turn_count ≡ 0 + turns_taken)
    × IsEnd engine 10 turns_taken r
rollout-IsEnd_example = rollout-IsEnd plus 9 engine endless 10 start

engine-Respects : Respects 9 engine
engine-Respects flat stops g h e =
    subst (λ g. length flat + length g.token_ids ≤ 9) (ap (λ o. get_or_else o (brief flat)) e)
      (brief-length flat h)

rollout-IsAccounted_example : IsAccounted 9 2 (rollout plus 9 engine endless 10 start)
rollout-IsAccounted_example =
    rollout-IsAccounted plus 9 engine endless engine-Respects 2 10 start start-IsAccounted

-- Three samples of a batch. The first has no room for an observation, the second ends in its first
-- turn, and the third, alone in the second round, ends in its second turn.
abbrev one_brief : List ℕ × Option (List Text) → Generation
one_brief p = brief p.0

abbrev batch_engine : BatchEngine
batch_engine = record { generate = map one_brief; tokenize = λ text. 5 ∷ 5 ∷ [] }

abbrev counter : Request (List Message) ℕ → EnvAnswer ℕ ℕ
counter r = record {
  observation = record { role = environment; content = codes "next" };
  metadata = some (r.info + 1);
  next_stop_strings = none;
  reward = 1;
  terminated = ltb 0 r.info;
}

abbrev counters : BatchEnv ℕ ℕ
counters = map counter

abbrev lane : List ℕ → ℕ → Lane ℕ ℕ
lane prompt count =
    initial_state 0 (record { role = user; content = codes "go"; token_ids = prompt } ∷ [])
      (codes "count", count) none

abbrev lanes : List (Lane ℕ ℕ)
lanes = lane (1 ∷ 2 ∷ 3 ∷ 4 ∷ 5 ∷ 6 ∷ 7 ∷ 8 ∷ []) 0 ∷ lane (1 ∷ []) 1 ∷ lane (1 ∷ []) 0 ∷ []

abbrev turns_of : Result RolloutError (List (Lane ℕ ℕ) × List ℕ) → List ℕ
turns_of (ok r) = map (λ s. s.turn_count) r.0
turns_of (err e) = []

third_goes_on :
    turns_of (batch_rollout plus 9 batch_engine counters (lane [] 0) 5 lanes) ≡ 1 ∷ 1 ∷ 2 ∷ []
unfolding program indices_where
third_goes_on = refl

-- The sliding puzzle of two by two, with an engine that always moves left.
abbrev ones : PythonText
ones = record { split = λ t. t ∷ t ∷ t ∷ []; int = λ t. some (pos 1) }

puzzle : Game
unfolding program
puzzle = record {
  size = 2;
  grid = (0 ∷ 1 ∷ []) ∷ (3 ∷ 2 ∷ []) ∷ [];
  solution = (1 ∷ 2 ∷ []) ∷ (3 ∷ 0 ∷ []) ∷ [];
  empty_pos = (0, 0);
}

puzzle_generated : generate 2 (1 ∷ 1 ∷ []) ≡ ok puzzle
unfolding program puzzle
puzzle_generated = refl

abbrev play : Metadata
play = record { game_state = puzzle; num_moves = 0; max_moves = 5 }

play-IsPlay : IsPlay play
play-IsPlay = record {
  board = (generate-IsBoard ones 2 (1 ∷ 1 ∷ []) puzzle puzzle_generated).1;
  moves = omega arith;
}

abbrev no_text : Observation → Text
no_text o = []

abbrev game_start : SampleState Metadata ℕ
game_start = initial_state 0 question play none

rollout-IsPlaying_example :
    IsPlaying (rollout plus 99 engine (sliding_env ones no_text) 3 game_start)
rollout-IsPlaying_example =
    rollout-IsPlaying ones no_text 99 engine 3 game_start
      (record { play = play-IsPlay; reward = omega arith })
