-- ===== src/Rollouts/Batch/Round.antt =====
-- A round of the batch, loop after loop.
use mathlib.Core.Path.{ap₂}
use nemo_rl_xtoken.Base.{
  ℕ, ◌≡◌, refl, sym, ap, ◌∙◌, Bool, Option, List, map, Result, ok, ◌>>=◌, ◌>>◌, raise_if, filter,
  indices_where, All,
}
use nemo_rl_xtoken.Base.Text.{Text}
use nemo_rl_xtoken.Puzzle.Turn.{Message}
use nemo_rl_xtoken.Rollouts.Rewards.{Request}
use nemo_rl_xtoken.Rollouts.Rewards.Sorted.{map-map}
use nemo_rl_xtoken.Rollouts.Sample.{Generation, EnvAnswer, respond}
use nemo_rl_xtoken.Rollouts.Batch.{
  BatchEngine, BatchEnv, Lane, RolloutError, negative_tokens_left, for_active, select_active,
  continuing, Observed, observed, any, prompt, input_length_of, request, add_reward, set_done,
  set_info, fails, add_observation, done, batch_round,
}
use nemo_rl_xtoken.Rollouts.Batch.Loops.{
  for_active-where, select_active-where, continuing-indices, continuing-map, observed-map,
  map-filter_eq, indices_where-eq, map_same, map-eq_all,
}
use nemo_rl_xtoken.Rollouts.Batch.Lanes.{
  is_open, IsSeparate, IsAnsweredBy, Keeps, Fits, response, answered, ends, stays, seen_by,
  responded, rewarded, watched, finished, informed, informed-ending, stays-step, seen_by-fails,
  step,
}

module _ {I R : Type 0} (add : R → R → R) (max_seq_len : ℕ) (engine : BatchEngine)
    (one : List ℕ × Option (List Text) → Generation)
    (answer : Request (List Message) I → EnvAnswer I R) where
  abbrev reply : Lane I R → Generation
  reply = response add max_seq_len engine one answer

  abbrev reaction : Lane I R → EnvAnswer I R
  reaction = answered add max_seq_len engine one answer

  abbrev ending_now : Lane I R → Bool
  ending_now = ends add max_seq_len engine one answer

  abbrev staying : Lane I R → Bool
  staying = stays add max_seq_len engine one answer

  abbrev seen : Lane I R → Observed I R
  seen = seen_by add max_seq_len engine one answer

  abbrev after_response : Bool → Lane I R → Lane I R
  after_response = responded add max_seq_len engine one answer

  abbrev after_reward : Bool → Lane I R → Lane I R
  after_reward = rewarded add max_seq_len engine one answer

  abbrev after_watching : Bool → Lane I R → Lane I R
  after_watching = watched add max_seq_len engine one answer

  abbrev after_finishing : Bool → Bool → Lane I R → Lane I R
  after_finishing = finished add max_seq_len engine one answer

  abbrev after_informing : Bool → Bool → Lane I R → Lane I R
  after_informing = informed add max_seq_len engine one answer

  abbrev next : Lane I R → Lane I R
  next = step add max_seq_len engine one answer

  -- What the rest of a round does.
  module _ (env : BatchEnv I R) (default : Lane I R) (separate : IsSeparate engine one)
      (answers : IsAnsweredBy env answer) (keeps : Keeps max_seq_len one) (lanes : List (Lane I R))
      (fits : All (Fits max_seq_len) lanes) where
    abbrev active : List ℕ
    active = indices_where is_open 0 lanes

    abbrev batch : List (Lane I R)
    batch = filter is_open lanes

    abbrev After : Type 0
    After = Result RolloutError (List (Lane I R) × List ℕ)

    abbrev inform : List Bool → List (EnvAnswer I R) → List (Lane I R) → After
    inform ds ans xs =
        for_active set_info (continuing ds active) (continuing ds (map (λ a. a.metadata) ans)) xs
        >>= λ (ys : List (Lane I R)). ok (ys, continuing ds active)

    abbrev finish : List Bool → List (EnvAnswer I R) → List (Lane I R) → After
    finish ds ans xs = for_active set_done active ds xs >>= inform ds ans

    abbrev watch : List (Observed I R) → List (EnvAnswer I R) → List (Lane I R) → After
    watch os ans xs =
        raise_if (any (fails max_seq_len engine.tokenize) os) negative_tokens_left
        >> (for_active (add_observation max_seq_len engine.tokenize) active os xs
            >>= finish (map (done max_seq_len engine.tokenize) os) ans)

    abbrev reward : List (Observed I R) → List (EnvAnswer I R) → List (Lane I R) → After
    reward os ans xs = for_active (add_reward add) active ans xs >>= watch os ans

    abbrev react : List (Lane I R) → List Generation → List (Lane I R) → After
    react ls gs xs =
        let ans = env (map request (select_active default active xs)) in
        reward (observed (map input_length_of ls) gs ans) ans xs

    abbrev round_of : List (Lane I R) → List (Lane I R) → After
    round_of ls xs =
        let gs = engine.generate (map prompt ls) in for_active respond active gs xs >>= react ls gs

    round_of-batch_round :
        batch_round add max_seq_len engine env default active lanes
        ≡ round_of (select_active default active lanes) lanes
    unfolding batch_round
    round_of-batch_round = refl

    abbrev now : (Bool → Lane I R → Lane I R) → Lane I R → Lane I R
    now f s = f (is_open s) s

    abbrev fin : Lane I R → Lane I R
    fin s = after_finishing (is_open s) (ending_now s) s

    abbrev result : After
    result = ok (
      map (λ s. after_informing (is_open s) (ending_now s) s) lanes,
      indices_where staying 0 lanes,
    )

    abbrev ends_now : List Bool
    ends_now = map ending_now batch

    abbrev answers_now : List (EnvAnswer I R)
    answers_now = map reaction batch

    inform-result : inform ends_now answers_now (map fin lanes) ≡ result
    inform-result =
        ap₂
          (λ is vs.
            for_active set_info is vs (map fin lanes) >>= λ (ys : List (Lane I R)). ok (ys, is))
          (continuing-indices is_open ending_now 0 lanes)
          (ap (continuing ends_now) (map-map (λ a. a.metadata) reaction batch)
            ∙ continuing-map is_open ending_now (λ s. (reaction s).metadata) lanes)
        ∙ ap (λ r. r >>= λ (ys : List (Lane I R)). ok (ys, indices_where staying 0 lanes))
            (for_active-where set_info staying (λ s. (reaction s).metadata) fin lanes)

    finish-result : finish ends_now answers_now (map (now after_watching) lanes) ≡ result
    finish-result =
        ap (λ r. r >>= inform ends_now answers_now)
          (for_active-where set_done is_open ending_now (now after_watching) lanes)
        ∙ inform-result

    watch-result : watch (map seen batch) answers_now (map (now after_reward) lanes) ≡ result
    watch-result =
        ap
          (λ b.
            raise_if b negative_tokens_left
            >> (for_active (add_observation max_seq_len engine.tokenize) active (map seen batch)
                  (map (now after_reward) lanes)
                >>= finish (map (done max_seq_len engine.tokenize) (map seen batch)) answers_now))
          (seen_by-fails add max_seq_len engine one answer keeps lanes fits)
        ∙ ap
            (λ r.
              r >>= finish (map (done max_seq_len engine.tokenize) (map seen batch)) answers_now)
            (for_active-where (add_observation max_seq_len engine.tokenize) is_open seen
              (now after_reward) lanes)
        ∙ ap (λ ds. finish ds answers_now (map (now after_watching) lanes))
            (map-map (done max_seq_len engine.tokenize) seen batch)
        ∙ finish-result

    reward-result : reward (map seen batch) answers_now (map (now after_response) lanes) ≡ result
    reward-result =
        ap (λ r. r >>= watch (map seen batch) answers_now)
          (for_active-where (add_reward add) is_open reaction (now after_response) lanes)
        ∙ watch-result

    env-answered :
        env (map request (select_active default active (map (now after_response) lanes)))
        ≡ answers_now
    env-answered =
        ap (λ ls. env (map request ls))
          (select_active-where default is_open (now after_response) lanes)
        ∙ ap env (map-map request (now after_response) batch)
        ∙ answers (map (λ s. request (now after_response s)) batch)
        ∙ map-map answer (λ s. request (now after_response s)) batch
        ∙ map-filter_eq is_open (λ s. answer (request (now after_response s))) reaction
            (λ s e. ap (λ b. answer (request (after_response b s))) e) lanes

    react-result : react batch (map reply batch) (map (now after_response) lanes) ≡ result
    react-result =
        ap
          (λ ans.
            reward (observed (map input_length_of batch) (map reply batch) ans) ans
              (map (now after_response) lanes))
          env-answered
        ∙ ap (λ os. reward os answers_now (map (now after_response) lanes))
            (observed-map input_length_of reply reaction batch)
        ∙ reward-result

    round_of-result : round_of batch (map (λ s. s) lanes) ≡ result
    round_of-result =
        ap (λ gs. for_active respond active gs (map (λ s. s) lanes) >>= react batch gs)
          (separate (map prompt batch) ∙ map-map one prompt batch)
        ∙ ap (λ r. r >>= react batch (map reply batch))
            (for_active-where respond is_open reply (λ s. s) lanes)
        ∙ react-result

    selected : select_active default active lanes ≡ batch
    selected =
        ap (select_active default active) (sym (map_same lanes))
        ∙ select_active-where default is_open (λ s. s) lanes
        ∙ map_same batch

    -- A round is a next of each sample, and its next active samples are those that are not done.
    pub round-step :
        batch_round add max_seq_len engine env default active lanes
        ≡ ok (map next lanes, indices_where is_open 0 (map next lanes))
    round-step =
        round_of-batch_round
        ∙ ap₂ round_of selected (sym (map_same lanes))
        ∙ round_of-result
        ∙ ap₂ (λ ls is. ok (ls, is))
            (map-eq_all _ next
              (λ s. informed-ending add max_seq_len engine one answer (is_open s) (ending_now s) s)
              lanes)
            (indices_where-eq staying is_open next (stays-step add max_seq_len engine one answer) 0
              lanes)
