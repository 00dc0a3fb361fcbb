-- ===== src/Packing/Concatenative.antt =====
-- `ConcatenativePacker`.
pub mod Sound
pub mod Packs
pub mod Order
use nemo_rl_xtoken.Base.{
  ℕ, zero, suc, ◌+◌, ◌≤◌, ◌≡◌, refl, Bool, true, false, not, ◌&&◌, ◌||◌, List, [], ◌∷◌, ◌++◌,
  Result, ok, err, ◌>>=◌, ◌>>◌, length, is_empty, enumerate, ltb, if◌then◌else◌,
}
use nemo_rl_xtoken.Base.Int.{ℤ, pos, negsuc, leb_ℤ, eqb_ℤ}
use nemo_rl_xtoken.Packing.Packer.{PackError, validate_sequence_lengths}

-- The loop's variables.
pub record Filling : Type 0 where
  pub bins : List (List ℕ)
  pub current_bin : List ℕ
  pub current_length : ℕ

-- The class variable; -1 disables the limit.
abbrev pub max_sequences_per_bin : ℤ
max_sequences_per_bin = negsuc 0

abbrev pub exceeds_sequence_limit : ℤ → List ℕ → Bool
exceeds_sequence_limit limit current_bin =
    not (eqb_ℤ limit (negsuc 0)) && leb_ℤ limit (pos (length current_bin))

-- `if current_bin: bins.append(current_bin)`
abbrev pub close_bin : List (List ℕ) → List ℕ → List (List ℕ)
close_bin bins current_bin = if is_empty current_bin then bins else bins ++ current_bin ∷ []

-- One round of the loop, for sequence `i`.
unfoldable pub concat_step : ℕ → ℤ → ℕ → ℕ → Filling → Filling
concat_step bin_capacity limit i len s =
    if ltb bin_capacity (s.current_length + len) || exceeds_sequence_limit limit s.current_bin
    then record {
      bins = close_bin s.bins s.current_bin;
      current_bin = i ∷ [];
      current_length = len;
    }
    else record s { current_bin = s.current_bin ++ i ∷ []; current_length = s.current_length + len }

unfoldable pub concat_loop : ℕ → ℤ → List (ℕ × ℕ) → Filling → Filling
unfolding concat_step
concat_loop bin_capacity limit [] s = s
concat_loop bin_capacity limit ((i, len) ∷ rest) s =
    concat_loop bin_capacity limit rest (concat_step bin_capacity limit i len s)

abbrev pub start : Filling
start = record { bins = []; current_bin = []; current_length = 0 }

-- `_pack_implementation`, with the class variable as an argument.
unfoldable pub concatenative_pack : ℕ → ℤ → List ℕ → Result PackError (List (List ℕ))
unfolding concat_loop validate_sequence_lengths
concatenative_pack bin_capacity limit sequence_lengths = do
  validate_sequence_lengths bin_capacity sequence_lengths
  let s = concat_loop bin_capacity limit (enumerate sequence_lengths) start
  ok (close_bin s.bins s.current_bin)
