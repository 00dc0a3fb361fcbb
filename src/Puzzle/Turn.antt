-- ===== src/Puzzle/Turn.antt =====
-- `SlidingPuzzleRunner`: the action in the assistant's text, and one turn. `strip` takes off ASCII
-- white space, and `lower` changes ASCII letters.
pub mod Episode
use nemo_rl_xtoken.Base.{
  ℕ, zero, suc, ◌+◌, ◌-◌, Bool, true, false, ◌&&◌, ◌||◌, Option, none, some, List, [], ◌∷◌, map,
  reverse, length, take, drop, leb, ◌==◌, if◌then◌else◌,
}
use nemo_rl_xtoken.Base.Text.{Text, codes, text_eq}
use nemo_rl_xtoken.Puzzle.Game.{Game, PythonText, Response, Outcome, step}

abbrev lower_char : ℕ → ℕ
lower_char c = if leb b'A' c && leb c b'Z' then c + 32 else c

abbrev lower : Text → Text
lower s = map lower_char s

abbrev is_space : ℕ → Bool
is_space c = c == 32 || (leb 9 c && leb c 13) || (leb 28 c && leb c 31)

unfoldable pub strip_left : Text → Text
strip_left [] = []
strip_left (c ∷ s) = let rest = strip_left s in if is_space c then rest else c ∷ s

-- `strip()`
abbrev pub strip : Text → Text
strip s = reverse (strip_left (reverse (strip_left s)))

-- `s` begins with `t`.
unfoldable pub begins : Text → Text → Bool
begins s [] = true
begins [] (d ∷ t) = false
begins (c ∷ s) (d ∷ t) = c == d && begins s t

-- `s.find(t)`
unfoldable pub find : Text → Text → Option ℕ
unfolding begins
find [] t = if begins [] t then some 0 else none
find (c ∷ s) t =
    let rest : Option ℕ = elim (find s t) [ none ↦ none | some i ↦ some (suc i) ] in
    if begins (c ∷ s) t then some 0 else rest

-- `s.rfind(t)`
unfoldable pub rfind : Text → Text → Option ℕ
unfolding begins
rfind [] t = if begins [] t then some 0 else none
rfind (c ∷ s) t = elim (rfind s t) [
  | none ↦ if begins (c ∷ s) t then some 0 else none
  | some i ↦ some (suc i)
]

abbrev pub prefix : Text
prefix = codes "<action>"

abbrev pub suffix : Text
suffix = codes "</action>"

-- `_parse_action`: what stands between the last `<action>` and the first `</action>` after it.
unfoldable pub parse_action : Text → Option Text
unfolding strip_left find rfind
parse_action text = elim (rfind (lower text) prefix) [
  | none ↦ none
  | some start_idx ↦ elim (find (drop (start_idx + length prefix) (lower text)) suffix) [
    | none ↦ none
    | some n ↦ some (strip (take n (drop (start_idx + length prefix) text)))
  ]
]

pub record Metadata : Type 0 where
  pub game_state : Game
  pub num_moves : ℕ
  pub max_moves : ℕ

pub data Role : Type 0 where
  system user assistant environment : Role

-- A message of the log.
pub record Message : Type 0 where
  pub role : Role
  pub content : Text

-- The observation; the board that is rendered in it is the game's.
pub data Observation : Type 0 where
  max_moves_reached : ℕ → Observation
  invalid_response viewing : Game → Observation
  answered : Response → Observation

-- What a turn gives back; the stop strings are `["</action>"]` or None, and the answers None.
pub record TurnResult : Type 0 where
  pub observation : Observation
  pub reward : ℕ
  pub is_terminated : Bool
  pub has_stop_strings : Bool
  pub next_metadata : Option Metadata

-- `message_log[-1]`, if it is the assistant's, stripped; otherwise the empty text.
unfoldable pub last_content : List Message → Text
unfolding strip_left
last_content [] = []
last_content (m ∷ []) = elim m.role [ assistant ↦ strip m.content | _ ↦ [] ]
last_content (m ∷ m' ∷ log) = last_content (m' ∷ log)

-- The turn of a move: `num_moves` goes up, and the end of the game clears the metadata.
abbrev pub moved : Metadata → Outcome → TurnResult
moved metadata o = record {
  observation = answered o.response;
  reward = o.reward;
  is_terminated = o.is_terminated;
  has_stop_strings = true;
  next_metadata =
      if o.is_terminated
      then none
      else some (record metadata { game_state = o.new_state; num_moves = metadata.num_moves + 1 });
}

unfoldable pub take_action : PythonText → Option Text → Metadata → TurnResult
unfolding step text_eq
take_action python none metadata = record {
  observation = invalid_response metadata.game_state;
  reward = 0;
  is_terminated = false;
  has_stop_strings = true;
  next_metadata = none;
}
take_action python (some action) metadata =
    if text_eq action (codes "view")
    then record {
      observation = viewing metadata.game_state;
      reward = 0;
      is_terminated = false;
      has_stop_strings = true;
      next_metadata = some metadata;
    }
    else moved metadata (step python action metadata.game_state)

unfoldable pub process_turn : PythonText → List Message → Metadata → TurnResult
unfolding last_content parse_action take_action
process_turn python message_log metadata =
    if leb metadata.max_moves metadata.num_moves
    then record {
      observation = max_moves_reached metadata.max_moves;
      reward = 0;
      is_terminated = true;
      has_stop_strings = false;
      next_metadata = none;
    }
    else take_action python (parse_action (last_content message_log)) metadata
