-- ===== src/Packing/Mffd.antt =====
-- `ModifiedFirstFitDecreasingPacker`. An item is an index with its size. The classes compare sizes
-- with the fractions C/2, C/3 and C/6 of the capacity; here both sides are multiplied out, which
-- is the same test for capacities up to 2^50, where the rounding of the quotient does not matter.
-- A test `size <= bin_capacity - sum` is written with the sum on the other side, so that the
-- truncated subtraction of natural numbers plays no part.
pub mod Visits
pub mod Phases
pub mod Leftovers
pub mod Packs
use nemo_rl_xtoken.Base.{
  ℕ, zero, suc, ◌+◌, ◌-◌, ◌*◌, ◌/◌, ◌≤◌, ◌≡◌, refl, Bool, true, false, ◌&&◌, ◌||◌, Option, none,
  some, List, [], ◌∷◌, ◌++◌, map, reverse, Result, ok, err, ◌>>=◌, ◌>>◌, raise_if, length, get_or,
  insert_at, is_empty, enumerate, total, ltb, leb, if◌then◌else◌, sort_by,
}
use nemo_rl_xtoken.Packing.Packer.{
  PackError, bad_capacity, bad_length, index_error, validate_sequence_lengths,
}

abbrev pub Item : Type 0
Item = ℕ × ℕ

abbrev pub size : Item → ℕ
size (_, s) = s

abbrev pub load : List Item → ℕ
load b = total size b

-- `key=lambda x: x[1]`, with `reverse=True` and without
abbrev pub size_ge : Item → Item → Bool
size_ge x y = leb (size y) (size x)

abbrev pub size_le : Item → Item → Bool
size_le x y = leb (size x) (size y)

pub record Classes : Type 0 where
  pub large : List Item
  pub medium : List Item
  pub small : List Item
  pub tiny : List Item

abbrev pub add_to_class : ℕ → Item → Classes → Classes
add_to_class bin_capacity item c =
    if ltb bin_capacity (2 * size item)
    then record c { large = item ∷ c.large }
    else (if ltb bin_capacity (3 * size item)
        then record c { medium = item ∷ c.medium }
        else (if ltb bin_capacity (6 * size item)
            then record c { small = item ∷ c.small }
            else record c { tiny = item ∷ c.tiny }))

-- `_classify_items`; each class keeps the order of the items.
unfoldable pub classify_items : ℕ → List Item → Classes
classify_items bin_capacity [] = record { large = []; medium = []; small = []; tiny = [] }
classify_items bin_capacity (item ∷ items) =
    add_to_class bin_capacity item (classify_items bin_capacity items)

-- `pop(i)` of the first item that a bin of load `used` has room for, and what is left.
unfoldable pub pop_first_fit : ℕ → ℕ → List Item → Option (Item × List Item)
pop_first_fit bin_capacity used [] = none
pop_first_fit bin_capacity used (item ∷ items) =
    let later = pop_first_fit bin_capacity used items in
    if leb (used + size item) bin_capacity
    then some (item, items)
    else elim later [ none ↦ none | some (found, rest) ↦ some (found, item ∷ rest) ]

-- The same from the end.
unfoldable pub pop_last_fit : ℕ → ℕ → List Item → Option (Item × List Item)
pop_last_fit bin_capacity used [] = none
pop_last_fit bin_capacity used (item ∷ items) = elim (pop_last_fit bin_capacity used items) [
  | some (found, rest) ↦ some (found, item ∷ rest)
  | none ↦ if leb (used + size item) bin_capacity then some (item, items) else none
]

-- A bin after a phase has seen it, and the items that the phase has left.
abbrev pub Visit : Type 0
Visit = List Item × List Item

-- A pass over the bins, which hands the items on from bin to bin.
unfoldable pub pass_over :
    (List Item → List Item → Visit) → List (List Item) → List Item → List (List Item) × List Item
pass_over visit [] items = ([], items)
pass_over visit (b ∷ bs) items =
    let (b', items') = visit b items in
    let (bs', rest) = pass_over visit bs items' in (b' ∷ bs', rest)

-- Phase 2
unfoldable pub add_medium : ℕ → List Item → List Item → Visit
unfolding pop_first_fit
add_medium bin_capacity b medium = elim (pop_first_fit bin_capacity (load b) medium) [
  | none ↦ (b, medium)
  | some (item, rest) ↦ (b ++ item ∷ [], rest)
]

-- `any(self.bin_capacity / 3 < size <= self.bin_capacity / 2 for _, size in b)`
unfoldable pub has_medium : ℕ → List Item → Bool
has_medium bin_capacity [] = false
has_medium bin_capacity (item ∷ b) =
    ltb bin_capacity (3 * size item) && leb (2 * size item) bin_capacity
    || has_medium bin_capacity b

-- Phase 3. Where no second item is found, the first one is lost.
unfoldable pub add_small_pair : ℕ → List Item → List Item → Visit
unfolding has_medium pop_last_fit
add_small_pair bin_capacity b (first_small ∷ next_small ∷ small) =
    if has_medium bin_capacity b
    then (b, first_small ∷ next_small ∷ small)
    else (if ltb bin_capacity (load b + (size first_small + size next_small))
        then (b, first_small ∷ next_small ∷ small)
        else elim (pop_last_fit bin_capacity (load b + size first_small) (next_small ∷ small)) [
          | none ↦ (b, next_small ∷ small)
          | some (second_small, rest) ↦ (b ++ first_small ∷ second_small ∷ [], rest)
        ])
add_small_pair bin_capacity b small = (b, small)

-- `remaining_items[-1][1]`
abbrev pub last_size : List Item → ℕ
last_size [] = 0
last_size (x ∷ []) = size x
last_size (x ∷ y ∷ items) = last_size (y ∷ items)

-- Phase 4: the `while` of one bin, on fuel; each round takes one item.
unfoldable pub add_greedily : ℕ → ℕ → List Item → List Item → Visit
unfolding pop_first_fit
add_greedily zero bin_capacity b items = (b, items)
add_greedily (suc fuel) bin_capacity b [] = (b, [])
add_greedily (suc fuel) bin_capacity b (x ∷ items) =
    if ltb bin_capacity (load b + last_size (x ∷ items))
    then (b, x ∷ items)
    else elim (pop_first_fit bin_capacity (load b) (x ∷ items)) [
      | none ↦ (b, x ∷ items)
      | some (item, rest) ↦ add_greedily fuel bin_capacity (b ++ item ∷ []) rest
    ]

-- Python's `bisect`: the loop over `lo` and `hi`, on fuel.
unfoldable pub bisect_loop : ℕ → List ℕ → ℕ → ℕ → ℕ → ℕ
bisect_loop zero sizes x lo hi = lo
bisect_loop (suc fuel) sizes x lo hi =
    let mid = (lo + hi) / 2 in
    let lower = bisect_loop fuel sizes x lo mid in
    let upper = bisect_loop fuel sizes x (mid + 1) hi in
    if ltb lo hi then (if ltb x (get_or sizes mid 0) then lower else upper) else lo

abbrev pub bisect : List ℕ → ℕ → ℕ
bisect sizes x = bisect_loop (length sizes) sizes x 0 (length sizes)

pub record FfdBins : Type 0 where
  pub ffd_bins : List (List Item)
  pub ffd_bin_sizes : List ℕ

abbrev pub insert_bin : List Item → ℕ → List (List Item) → List ℕ → FfdBins
insert_bin new_bin new_bin_size bins sizes = record {
  ffd_bins = insert_at (bisect sizes new_bin_size) new_bin bins;
  ffd_bin_sizes = insert_at (bisect sizes new_bin_size) new_bin_size sizes;
}

-- Phase 5: one item. The lists' heads are the fullest room; popping an empty list raises.
unfoldable pub ffd_step : ℕ → Item → List (List Item) → List ℕ → Result PackError FfdBins
unfolding bisect_loop
ffd_step bin_capacity item (b ∷ bs) (s ∷ ss) =
    if leb (s + size item) bin_capacity
    then ok (insert_bin (b ++ item ∷ []) (s + size item) bs ss)
    else ok (insert_bin (item ∷ []) (size item) (b ∷ bs) (s ∷ ss))
ffd_step bin_capacity item _ _ = err index_error

unfoldable pub ffd_loop : ℕ → List Item → FfdBins → Result PackError FfdBins
unfolding ffd_step
ffd_loop bin_capacity [] s = ok s
ffd_loop bin_capacity (item ∷ items) s =
    ffd_step bin_capacity item s.ffd_bins s.ffd_bin_sizes >>= ffd_loop bin_capacity items

-- `[[idx for idx, _ in b] for b in bins if b]`
abbrev pub index : Item → ℕ
index (idx, _) = idx

unfoldable pub to_indices : List (List Item) → List (List ℕ)
to_indices [] = []
to_indices (b ∷ bs) = if is_empty b then to_indices bs else map index b ∷ to_indices bs

-- `any(l <= 0 for l in sequence_lengths)`
unfoldable pub any_zero : List ℕ → Bool
any_zero [] = false
any_zero (l ∷ lens) = leb l 0 || any_zero lens

abbrev pub one_bin_each : List Item → List (List Item)
one_bin_each large = map (λ item. item ∷ []) large

-- Phases 0 to 4: the bins, and the items that are left over.
unfoldable pub fill_large_bins : ℕ → List Item → List (List Item) × List Item
unfolding classify_items sort_by pass_over add_medium add_small_pair add_greedily
fill_large_bins bin_capacity items =
    let c = classify_items bin_capacity items in
    let (bins2, medium) =
      pass_over (add_medium bin_capacity) (one_bin_each (sort_by size_ge c.large))
        (sort_by size_ge c.medium) in
    let (bins3, small) =
      pass_over (add_small_pair bin_capacity) (reverse bins2) (sort_by size_le c.small) in
    let remaining_items = sort_by size_ge (medium ++ (small ++ sort_by size_le c.tiny)) in
    pass_over (add_greedily (length remaining_items) bin_capacity) (reverse bins3) remaining_items

-- `_pack_implementation`
unfoldable pub mffd_pack : ℕ → List ℕ → Result PackError (List (List ℕ))
unfolding validate_sequence_lengths any_zero fill_large_bins ffd_loop to_indices sort_by
mffd_pack bin_capacity sequence_lengths = do
  raise_if (leb bin_capacity 0) bad_capacity
  raise_if (any_zero sequence_lengths) bad_length
  validate_sequence_lengths bin_capacity sequence_lengths
  let filled = fill_large_bins bin_capacity (enumerate sequence_lengths)
  s ←
      ffd_loop bin_capacity (sort_by size_ge filled.1)
        (record { ffd_bins = [] ∷ []; ffd_bin_sizes = 0 ∷ [] })
  ok (to_indices (filled.0 ++ s.ffd_bins))
