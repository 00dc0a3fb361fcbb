-- ===== src/Sharding/Dynamic/Budget.antt =====
-- The microbatches of dynamic batching: one after the other, complete, and within the budget.
use mathlib.Core.Path.{subst}
use native.Mathlib.Decide.{dec_lt}
use nemo_rl_xtoken.Sharding.Batch.{zero_division}
use nemo_rl_xtoken.Base.{
  ◌==◌, ◌&&◌, not, is_empty, raise_if-passes, ℕ, suc, ◌+◌, ◌-◌, ◌*◌, max, ◌≤◌, ◌<◌, ◌≡◌, refl, sym,
  ap, ◌∙◌, List, [], ◌∷◌, ◌++◌, map, arith, ok, >>=-eq-ok, ok-injective, length, get_or, All,
  All-append, ltb, leb, leb→le, ltb_false→le, Bool-cases, inl, inr, le→ltb_false,
}
use nemo_rl_xtoken.Sharding.Dynamic.{
  MicroBatch, Batching, padded_length, add_positions, no_positions, micro_batches,
}

-- The microbatches `ms` cover the positions from `start` up to `end`, without gap or overlap.
abbrev pub Covers : ℕ → List MicroBatch → ℕ → Type 0
Covers start [] end = start ≡ end
Covers start (m ∷ ms) end = (m.first ≡ start) × (m.first ≤ m.last) × Covers m.last ms end

-- Within the budget of tokens; and no position needs more than the microbatch's length.
pub record IsAffordable (max_tokens : ℕ) (lens : List ℕ) (m : MicroBatch) : Type 0 where
  pub budget : (m.last - m.first) * m.seqlen ≤ max_tokens
  pub long_enough : (j : ℕ) → m.first ≤ j → j < m.last → get_or lens j 0 ≤ m.seqlen

Covers-snoc :
    (start end : ℕ) (ms : List MicroBatch) (m : MicroBatch)
    → Covers start ms end
    → m.first ≡ end
    → m.first ≤ m.last
    → Covers start (ms ++ m ∷ []) m.last
Covers-snoc start end [] m c e h = (e ∙ sym c, h, refl)
Covers-snoc start end (n ∷ ms) m c e h = (c.0, c.1, Covers-snoc n.last end ms m c.2 e h)

module _ (max_tokens : ℕ) (lens : List ℕ) where
  -- Before position `i`.
  record IsBatching (i : ℕ) (s : Batching) : Type 0 where
    covered : Covers 0 s.done s.current.first
    in_order : s.current.first ≤ s.current.last
    up_to : s.current.last ≡ i
    longest : s.current.seqlen ≡ s.max_seqlen_this_mb
    done_affordable : All (IsAffordable max_tokens lens) s.done
    affordable : IsAffordable max_tokens lens s.current

  module _ (i : ℕ) (s : Batching) (v : IsBatching i s) (len : ℕ) (here : get_or lens i 0 ≡ len)
      (fits : len ≤ max_tokens) where
    abbrev longest_now : ℕ
    longest_now = max s.max_seqlen_this_mb len

    extended-IsBatching :
        (s.current.last - s.current.first + 1) * longest_now ≤ max_tokens
        → IsBatching (suc i) (record {
          done = s.done;
          current = record {
            first = s.current.first;
            last = s.current.last + 1;
            seqlen = longest_now;
          };
          max_seqlen_this_mb = longest_now;
        })
    extended-IsBatching room = record {
      covered = v.covered;
      in_order = omega (arith, v.in_order);
      up_to = omega (arith, v.up_to);
      longest = refl;
      done_affordable = v.done_affordable;
      affordable = record {
        budget = rw count room;
        long_enough = λ j ge lt. elim (dec_lt j i) [
          | yes old ↦
              omega (arith, v.affordable.long_enough j ge (omega (arith, v.up_to)), v.longest)
          | no new ↦
              let e : i ≡ j = omega (arith, v.up_to) in
              subst (λ k. get_or lens k 0 ≤ longest_now) e (omega (arith, here))
        ];
      };
    }
      where
        count : s.current.last + 1 - s.current.first ≡ s.current.last - s.current.first + 1
        count = omega (arith, v.in_order)

    started-IsBatching : IsBatching (suc i) (record {
      done = s.done ++ s.current ∷ [];
      current = record { first = i; last = i + 1; seqlen = len };
      max_seqlen_this_mb = len;
    })
    started-IsBatching = record {
      covered =
          subst (Covers 0 (s.done ++ s.current ∷ [])) v.up_to
            (Covers-snoc 0 s.current.first s.done s.current v.covered refl v.in_order);
      in_order = omega arith;
      up_to = omega arith;
      longest = refl;
      done_affordable = All-append _ s.done (s.current ∷ []) v.done_affordable (v.affordable, tt);
      affordable = record {
        budget = rw one (omega (arith, fits));
        long_enough = λ j ge lt.
            let e : i ≡ j = omega arith in
            subst (λ k. get_or lens k 0 ≤ len) e (omega (arith, here));
      };
    }
      where
        one : i + 1 - i ≡ 1
        one = omega arith

  no_positions-IsBatching : IsBatching 0 no_positions
  no_positions-IsBatching = record {
    covered = refl;
    in_order = omega arith;
    up_to = refl;
    longest = refl;
    done_affordable = tt;
    affordable = record { budget = omega arith; long_enough = λ j ge lt. absurd (omega arith) };
  }

  add_positions-IsBatching :
      (i : ℕ) (rest : List ℕ) (s t : Batching)
      → ((j : ℕ) → get_or lens (i + j) 0 ≡ get_or rest j 0)
      → add_positions max_tokens i rest s ≡ ok t
      → IsBatching i s
      → IsBatching (i + length rest) t
  unfolding add_positions
  add_positions-IsBatching i [] s t h ran v =
      let e : i ≡ i + 0 = omega arith in
      subst (IsBatching (i + 0)) (ok-injective ran) (subst (λ k. IsBatching k s) e v)
  add_positions-IsBatching i (len ∷ rest) s t h ran v =
      subst (λ k. IsBatching k t) end
        (elim (Bool-cases (ltb max_tokens len)) [
          | inl long ↦ cc (rw long at ran)
          | inr short ↦
              elim (Bool-cases (
                leb ((s.current.last - s.current.first + 1) * max s.max_seqlen_this_mb len)
                  max_tokens)) [
                    | inl room ↦
                        add_positions-IsBatching (suc i) rest _ t next (rw (short, room) at ran) (
                          extended-IsBatching i s v len here (ltb_false→le _ _ short)
                            (leb→le _ _ room))
                    | inr full ↦
                        add_positions-IsBatching (suc i) rest _ t next (rw (short, full) at ran)
                          (started-IsBatching i s v len here (ltb_false→le _ _ short))
                  ]
        ])
    where
      first_position : i ≡ i + 0
      first_position = omega arith

      here : get_or lens i 0 ≡ len
      here = ap (λ k. get_or lens k 0) first_position ∙ h 0

      shift : (j : ℕ) → suc i + j ≡ i + suc j
      shift j = omega arith

      next : (j : ℕ) → get_or lens (suc i + j) 0 ≡ get_or rest j 0
      next j = ap (λ k. get_or lens k 0) (shift j) ∙ h (suc j)

      end : suc i + length rest ≡ i + suc (length rest)
      end = omega arith

-- The microbatches of a chunk cover its positions in order, without gap or overlap. In each, the
-- number of positions times the common length is at most `max_tokens`, and the common length is
-- at least the padded length of every position in it.
pub micro_batches-IsAffordable :
    (max_tokens multiple width : ℕ) (positions : List (List ℕ)) (ms : List MicroBatch)
    → micro_batches max_tokens multiple width positions ≡ ok ms
    → Covers 0 ms (length (map (padded_length multiple width) positions))
      × All (IsAffordable max_tokens (map (padded_length multiple width) positions)) ms
unfolding micro_batches
micro_batches-IsAffordable max_tokens multiple width positions ms h =
    let lens = map (padded_length multiple width) positions in
    let (some_round, h1) =
      raise_if-passes (multiple == 0 && not (is_empty positions)) zero_division _ h in
    let (t, ran, e) = >>=-eq-ok (add_positions max_tokens 0 lens no_positions) _ h1 in
    let v =
      add_positions-IsBatching max_tokens lens 0 lens no_positions t
        (λ j. ap (λ k. get_or lens k 0) (start j)) ran (no_positions-IsBatching max_tokens lens) in
    subst (λ ms. Covers 0 ms (length lens) × All (IsAffordable max_tokens lens) ms) (ok-injective e)
      (
        subst (Covers 0 (t.done ++ t.current ∷ [])) (v.up_to ∙ start (length lens))
            (Covers-snoc 0 t.current.first t.done t.current v.covered refl v.in_order),
        All-append _ t.done (t.current ∷ []) v.done_affordable (v.affordable, tt),
      )
  where
    start : (j : ℕ) → 0 + j ≡ j
    start j = omega arith

-- Nothing is raised where no position needs more than the budget.
pub add_positions_total :
    (max_tokens i : ℕ) (lens : List ℕ) (s : Batching)
    → All (λ l. l ≤ max_tokens) lens
    → (t : Batching) × (add_positions max_tokens i lens s ≡ ok t)
unfolding add_positions
add_positions_total max_tokens i [] s h = (s, refl)
add_positions_total max_tokens i (len ∷ lens) s h =
    rw (le→ltb_false max_tokens len h.0) (add_positions_total max_tokens (suc i) lens _ h.1)
