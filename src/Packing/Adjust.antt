-- ===== src/Packing/Adjust.antt =====
-- `SequencePacker._adjust_bin_count`.
pub mod Supply
pub mod Moves
pub mod Counts
pub mod Outcome
use nemo_rl_xtoken.Base.{
  ℕ, zero, suc, ◌+◌, ◌-◌, ◌%◌, max, ◌≤◌, ◌≡◌, refl, Bool, true, false, Option, none, some, List, [],
  ◌∷◌, ◌++◌, map, Result, ok, err, ◌>>=◌, ◌>>◌, raise_if, length, get_or, modify, init_last,
  replicate, enumerate, total, ltb, ◌==◌, if◌then◌else◌, sort_by,
}
use nemo_rl_xtoken.Packing.Packer.{
  PackError, too_few_sequences, cannot_redistribute, index_error, SequencePacker, tuple_ge,
}

abbrev raised_to_minimum : Option ℕ → ℕ → ℕ
raised_to_minimum none target = target
raised_to_minimum (some least) target = max target least

abbrev raised_to_multiple : Option ℕ → ℕ → ℕ
raised_to_multiple none target = target
raised_to_multiple (some multiple) target =
    if target % multiple == 0 then target else target + (multiple - target % multiple)

-- `target_bin_count`
unfoldable pub target_bin_count : SequencePacker → ℕ → ℕ
target_bin_count packer current =
    raised_to_multiple packer.bin_count_multiple (raised_to_minimum packer.min_bin_count current)

-- `(len(bin_contents), i)` for the bins, largest first
abbrev pub size_pair : ℕ × List ℕ → ℕ × ℕ
size_pair (i, bin_contents) = (length bin_contents, i)

unfoldable pub bin_sizes : List (List ℕ) → List (ℕ × ℕ)
unfolding sort_by
bin_sizes bins = sort_by tuple_ge (map size_pair (enumerate bins))

-- The inner `while`: the sources from the first one on whose bin still has two sequences.
unfoldable pub find_source : List (ℕ × ℕ) → List (List ℕ) → List (ℕ × ℕ)
find_source [] bins = []
find_source ((bin_size, original) ∷ rest) bins =
    if ltb 1 (length (get_or bins original []))
    then (bin_size, original) ∷ rest
    else find_source rest bins

-- `adjusted_bins[new].append(adjusted_bins[original].pop())`
abbrev pub move_last : ℕ → ℕ → List (List ℕ) → Result PackError (List (List ℕ))
move_last original new bins = elim (get_or bins original []) [
  | [] ↦ err index_error
  | x ∷ xs ↦
      let (kept, sequence_to_move) = init_last x xs in
      ok (modify new (λ b. b ++ sequence_to_move ∷ []) (modify original (λ _. kept) bins))
]

-- The outer loop, with `count` new bins left to fill, the next of them `new`.
unfoldable pub fill_bins : ℕ → ℕ → List (ℕ × ℕ) → List (List ℕ) → Result PackError (List (List ℕ))
unfolding find_source
fill_bins zero new sources bins = ok bins
fill_bins (suc count) new sources bins = elim (find_source sources bins) [
  | [] ↦ err cannot_redistribute
  | (bin_size, original) ∷ rest ↦
      move_last original new bins >>= fill_bins count (suc new) ((bin_size, original) ∷ rest)
]

unfoldable pub adjust_bin_count : SequencePacker → List (List ℕ) → Result PackError (List (List ℕ))
unfolding target_bin_count bin_sizes fill_bins
adjust_bin_count packer bins =
    let current = length bins in
    let target = target_bin_count packer current in
    if target == current then ok bins else do
      raise_if (ltb (total length bins) target) too_few_sequences
      fill_bins (target - current) current (bin_sizes bins)
          (bins ++ replicate (target - current) [])
