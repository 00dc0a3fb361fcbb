-- ===== src/Packing/Mffd/Phases.antt =====
-- Phases 0 to 4 together: the bins of the large items and what is left over.
use mathlib.Core.List.Permᴰ
use nemo_rl_xtoken.Base.{
  ℕ, ◌+◌, ◌≤◌, ◌≡◌, refl, sym, List, [], ◌∷◌, ◌++◌, arith, reverse, length, All, All-Same,
  All-sort_by, All-map_of, total, total-append, total-sort_by, total-Permᴰ, leb, leb→le, le→leb,
  sort_by,
}
use nemo_rl_xtoken.Packing.Mffd.{
  Item, size, load, size_ge, size_le, Classes, add_to_class, classify_items, pass_over, add_medium,
  add_small_pair, add_greedily, one_bin_each, fill_large_bins,
}
use nemo_rl_xtoken.Packing.Mffd.Visits.{
  pass_over_keeps, pass_over_fits, add_medium-IsFair, add_small_pair-IsFair, add_greedily-IsFair,
}

module _ (cap : ℕ) where
  abbrev class_weight : (Item → ℕ) → Classes → ℕ
  class_weight w c = total w c.large + total w c.medium + total w c.small + total w c.tiny

  add_to_class-weight :
      (w : Item → ℕ) (item : Item) (c : Classes)
      → class_weight w (add_to_class cap item c) ≡ w item + class_weight w c
  add_to_class-weight w item c = ground arith

  -- The four classes hold the items, each once.
  pub classify_items-weight :
      (w : Item → ℕ) (items : List Item) → class_weight w (classify_items cap items) ≡ total w items
  unfolding classify_items
  classify_items-weight w [] = refl
  classify_items-weight w (item ∷ items) =
      omega (
        arith,
        add_to_class-weight w item (classify_items cap items),
        classify_items-weight w items,
      )

  classify_items-large :
      (items : List Item)
      → All (λ p. size p ≤ cap) items
      → All (λ p. size p ≤ cap) (classify_items cap items).large
  unfolding classify_items
  classify_items-large [] h = tt
  classify_items-large (item ∷ items) h = ground (arith, classify_items-large items h.1)

total-one_bin_each :
    (w : Item → ℕ) (large : List Item) → total (total w) (one_bin_each large) ≡ total w large
total-one_bin_each w [] = refl
total-one_bin_each w (item ∷ large) = omega (arith, total-one_bin_each w large)

one_bin_each_fits :
    (cap : ℕ) (large : List Item)
    → All (λ p. size p ≤ cap) large
    → All (λ b. load b ≤ cap) (one_bin_each large)
one_bin_each_fits cap [] h = tt
one_bin_each_fits cap (item ∷ large) h = (omega (arith, h.0), one_bin_each_fits cap large h.1)

total-reverse {ℓ} : {A : Type ℓ} (w : A → ℕ) (xs : List A) → total w (reverse xs) ≡ total w xs
total-reverse w xs = total-Permᴰ w (Permᴰ.reverse xs)

reverse_fits :
    (cap : ℕ) (bs : List (List Item))
    → All (λ b. load b ≤ cap) bs
    → All (λ b. load b ≤ cap) (reverse bs)
reverse_fits cap bs h =
    All-map_of _ _ (reverse bs) (λ b e. leb→le _ _ e)
      (All-Same (λ b. leb (load b) cap) bs (reverse bs) (λ w. sym (total-reverse w bs))
        (All-map_of _ _ bs (λ b e. le→leb _ _ e) h))

module _ (cap : ℕ) (items : List Item) where
  abbrev classes : Classes
  classes = classify_items cap items

  abbrev bins2 : List (List Item) × List Item
  bins2 =
      pass_over (add_medium cap) (one_bin_each (sort_by size_ge classes.large))
        (sort_by size_ge classes.medium)

  abbrev bins3 : List (List Item) × List Item
  bins3 = pass_over (add_small_pair cap) (reverse bins2.0) (sort_by size_le classes.small)

  abbrev remaining : List Item
  remaining = sort_by size_ge (bins2.1 ++ (bins3.1 ++ sort_by size_le classes.tiny))

  -- No item is lost, and none is doubled.
  pub fill_large_bins-weight :
      (w : Item → ℕ)
      → total (total w) (fill_large_bins cap items).0 + total w (fill_large_bins cap items).1
        ≡ total w items
  unfolding fill_large_bins
  fill_large_bins-weight w = omega (
    arith,
    classify_items-weight cap w items,
    total-one_bin_each w (sort_by size_ge classes.large),
    total-sort_by size_ge w classes.large,
    total-sort_by size_ge w classes.medium,
    total-sort_by size_le w classes.small,
    total-sort_by size_le w classes.tiny,
    pass_over_keeps cap (add_medium cap) (add_medium-IsFair cap) w
        (one_bin_each (sort_by size_ge classes.large)) (sort_by size_ge classes.medium),
    total-reverse (total w) bins2.0,
    pass_over_keeps cap (add_small_pair cap) (add_small_pair-IsFair cap) w (reverse bins2.0)
        (sort_by size_le classes.small),
    total-reverse (total w) bins3.0,
    total-sort_by size_ge w (bins2.1 ++ (bins3.1 ++ sort_by size_le classes.tiny)),
    total-append w bins2.1 (bins3.1 ++ sort_by size_le classes.tiny),
    total-append w bins3.1 (sort_by size_le classes.tiny),
    pass_over_keeps cap (add_greedily (length remaining) cap)
        (add_greedily-IsFair (length remaining) cap) w (reverse bins3.0) remaining,
  )

  pub fill_large_bins_fits :
      All (λ p. size p ≤ cap) items → All (λ b. load b ≤ cap) (fill_large_bins cap items).0
  unfolding fill_large_bins
  fill_large_bins_fits h =
      pass_over_fits cap (add_greedily (length remaining) cap)
        (add_greedily-IsFair (length remaining) cap) (reverse bins3.0) remaining
        (reverse_fits cap bins3.0 (
          pass_over_fits cap (add_small_pair cap) (add_small_pair-IsFair cap) (reverse bins2.0)
            (sort_by size_le classes.small)
            (reverse_fits cap bins2.0 (
              pass_over_fits cap (add_medium cap) (add_medium-IsFair cap)
                (one_bin_each (sort_by size_ge classes.large)) (sort_by size_ge classes.medium)
                (one_bin_each_fits cap (sort_by size_ge classes.large)
                  (All-sort_by size_ge _ classes.large (classify_items-large cap items h)))))))
