-- ===== src/Replay/Buffer/Reachable.antt =====
-- The calls on the buffer as steps, and what holds of the buffer after any calls.
use mathlib.Core.Path.{subst}
use nemo_rl_xtoken.Base.{
  length-map, ℕ, zero, suc, ◌≤◌, ◌<◌, ◌≡◌, refl, sym, ap, ◌∙◌, Bool, true, false, Option, none,
  some, List, [], ◌∷◌, ◌++◌, map, arith, ok, err, raise_if-passes, ok-injective, length,
  length-append, filter, All, All-append, All-map_of, leb, leb_false→lt, ◌==◌, Bool-cases, inl, inr,
  if◌then◌else◌,
}
use nemo_rl_xtoken.Base.Int.{ℤ, pos, negsuc, ◌≤ℤ◌, max_ℤ, ltb_ℤ}
use nemo_rl_xtoken.Replay.Buffer.{
  ReplayBuffer, Sample, ReplayError, PushStatus, new_buffer, push_with_wait_signal, sample, clear,
}
use nemo_rl_xtoken.Replay.Buffer.Rows.{Entry, of_entries, left}
use nemo_rl_xtoken.Replay.Buffer.Sampling.{sample-entries, is_intended, any_old, Outcome, sampled}

-- One call that changes the buffer.
pub data BufferStep {T : Type 0} : ReplayBuffer T → ReplayBuffer T → Type 0 where
  push :
      (t : T) (version target : ℕ) (status : PushStatus) {b b' : ReplayBuffer T}
      → push_with_wait_signal t version target b ≡ (status, b')
      → BufferStep b b'
  take_groups :
      (num current max_age_steps : ℕ) (o : Option (Sample T)) {b b' : ReplayBuffer T}
      → 0 < num
      → sample num current max_age_steps b ≡ ok (o, b')
      → BufferStep b b'
  clear_all : {b b' : ReplayBuffer T} → clear b ≡ b' → BufferStep b b'

-- The buffers that a new one can become.
pub data Reachable {T : Type 0} (max_size : ℕ) : ReplayBuffer T → Type 0 where
  start : {b : ReplayBuffer T} → new_buffer max_size ≡ ok b → Reachable max_size b
  next : {b b' : ReplayBuffer T} → Reachable max_size b → BufferStep b b' → Reachable max_size b'

-- The three lists are those of `entries`; they are no longer than `max_size`, and no target is
-- above `last_target_weight_already_generated`.
pub record IsBuffer {T : Type 0} (max_size : ℕ) (b : ReplayBuffer T) : Type 0 where
  pub entries : List (Entry T)
  pub last : ℤ
  pub parallel : b ≡ of_entries max_size last entries
  pub bounded : length entries ≤ max_size
  pub up_to_last : All (λ e. pos e.target ≤ℤ last) entries

max-upper_left : (a b c : ℤ) → a ≤ℤ b → a ≤ℤ max_ℤ b c
max-upper_left a b c h = elim (Bool-cases (ltb_ℤ b c)) [
  | inl below ↦ rw below (ground arith)
  | inr above ↦ rw above h
]

max-upper_right : (b c : ℤ) → c ≤ℤ max_ℤ b c
max-upper_right b c = elim (Bool-cases (ltb_ℤ b c)) [
  | inl below ↦ rw below (omega arith)
  | inr above ↦ rw above (ground arith)
]

module _ {A : Type 0} where
  map-snoc :
      {B : Type 0} (f : A → B) (xs : List A) (x : A) → map f (xs ++ x ∷ []) ≡ map f xs ++ f x ∷ []
  map-snoc f [] x = refl
  map-snoc f (y ∷ xs) x = ap (λ l. f y ∷ l) (map-snoc f xs x)

  length-left : (test : A → Bool) (n : ℕ) (xs : List A) → length (left test n xs) ≤ length xs
  length-left test zero xs = omega arith
  length-left test (suc n) [] = omega arith
  length-left test (suc n) (x ∷ xs) =
      go (test x) (length-left test n xs) (length-left test (suc n) xs)
    where
      go :
          (b : Bool)
          → length (left test n xs) ≤ length xs
          → length (left test (suc n) xs) ≤ length xs
          → length (if b then left test n xs else x ∷ left test (suc n) xs) ≤ suc (length xs)
      go true h h' = omega arith
      go false h h' = omega arith

  All-left :
      (P : A → Type 0) (test : A → Bool) (n : ℕ) (xs : List A) → All P xs → All P (left test n xs)
  All-left P test zero xs h = h
  All-left P test (suc n) [] h = tt
  All-left P test (suc n) (x ∷ xs) h =
      go (test x) (All-left P test n xs h.1) (All-left P test (suc n) xs h.1)
    where
      go :
          (b : Bool)
          → All P (left test n xs)
          → All P (left test (suc n) xs)
          → All P (if b then left test n xs else x ∷ left test (suc n) xs)
      go true k k' = k
      go false k k' = (h.0, k')

module _ {T : Type 0} (max_size : ℕ) where
  snoc-of_entries :
      (t : T) (version target : ℕ) (last : ℤ) (entries : List (Entry T))
      → of_entries max_size
          (max_ℤ last (pos target))
          (entries ++ record { trajectory = t; version = version; target = target } ∷ [])
        ≡ record {
          max_size = max_size;
          trajectories = map (λ e. e.trajectory) entries ++ t ∷ [];
          trajectory_versions = map (λ e. e.version) entries ++ version ∷ [];
          target_weight_versions = map (λ e. e.target) entries ++ target ∷ [];
          last_target_weight_already_generated = max_ℤ last (pos target);
        }
  snoc-of_entries t version target last entries =
      rw
        (
          map-snoc (λ e. e.trajectory) entries added,
          map-snoc (λ e. e.version) entries added,
          map-snoc (λ e. e.target) entries added,
        )
        refl
    where
      added : Entry T
      added = record { trajectory = t; version = version; target = target }

  pushed-IsBuffer :
      (t : T) (version target : ℕ) (last : ℤ) (entries : List (Entry T))
      → length entries ≤ max_size
      → All (λ e. pos e.target ≤ℤ last) entries
      → IsBuffer max_size
          (push_with_wait_signal t version target (of_entries max_size last entries)).1
  unfolding push_with_wait_signal
  pushed-IsBuffer t version target last entries bound below =
      elim (Bool-cases (leb max_size (length (map (λ e. e.trajectory) entries)))) [
        | inl no_room ↦ rw no_room (record {
          entries = entries;
          last = last;
          parallel = refl;
          bounded = bound;
          up_to_last = below;
        })
        | inr room ↦ rw room (record {
          entries = entries ++ pushed ∷ [];
          last = max_ℤ last (pos target);
          parallel = sym (snoc-of_entries t version target last entries);
          bounded = omega (
            arith,
            leb_false→lt _ _ room,
            length-map (λ e. e.trajectory) entries,
            length-append entries (pushed ∷ []),
          );
          up_to_last =
              All-append _ entries (pushed ∷ [])
                (All-map_of _ _ entries (λ e. max-upper_left (pos e.target) last (pos target))
                  below)
                (max-upper_right last (pos target), tt);
        })
      ]
    where
      pushed : Entry T
      pushed = record { trajectory = t; version = version; target = target }

  sampled-IsBuffer :
      (num current max_age_steps : ℕ) (o : Option (Sample T)) (b' : ReplayBuffer T) (last : ℤ)
      (entries : List (Entry T))
      → 0 < num
      → sample num current max_age_steps (of_entries max_size last entries) ≡ ok (o, b')
      → length entries ≤ max_size
      → All (λ e. pos e.target ≤ℤ last) entries
      → IsBuffer max_size b'
  sampled-IsBuffer num current age o b' last entries some_groups h bound below =
      go (any_old current age entries) (leb num (length (filter (is_intended current age) entries)))
        (sym (sample-entries current age num max_size last entries some_groups) ∙ h)
    where
      waited : Outcome T
      waited = ok (none, of_entries max_size last entries)

      given : Outcome T
      given = ok (
        some (sampled current age num entries),
        of_entries max_size last (left (is_intended current age) num entries),
      )

      go :
          (old enough : Bool)
          → (if old then err ReplayError.old_trajectories else if enough then given else waited)
            ≡ ok (o, b')
          → IsBuffer max_size b'
      go true enough e = cc
      go false true e = record {
        entries = left (is_intended current age) num entries;
        last = last;
        parallel = sym (ap (λ p. p.1) (ok-injective e));
        bounded = omega (arith, length-left (is_intended current age) num entries);
        up_to_last = All-left _ (is_intended current age) num entries below;
      }
      go false false e = record {
        entries = entries;
        last = last;
        parallel = sym (ap (λ p. p.1) (ok-injective e));
        bounded = bound;
        up_to_last = below;
      }

  step-IsBuffer :
      {b b' : ReplayBuffer T} → BufferStep b b' → IsBuffer max_size b → IsBuffer max_size b'
  unfolding clear
  step-IsBuffer (push t version target status h) v =
      subst (IsBuffer max_size)
        (sym (ap (λ b. (push_with_wait_signal t version target b).1) v.parallel) ∙ ap (λ p. p.1) h)
        (pushed-IsBuffer t version target v.last v.entries v.bounded v.up_to_last)
  step-IsBuffer {b' = b'} (take_groups num current age o some_groups h) v =
      sampled-IsBuffer num current age o b' v.last v.entries some_groups
        (sym (ap (sample num current age) v.parallel) ∙ h) v.bounded v.up_to_last
  step-IsBuffer (clear_all h) v = record {
    entries = [];
    last = v.last;
    parallel = sym h ∙ ap clear v.parallel;
    bounded = omega arith;
    up_to_last = tt;
  }

  -- After any sequence of pushes, samples of at least one group and clears on a new buffer, the
  -- three lists are parallel, hold at most `max_size` entries, and no entry's target is above
  -- `last_target_weight_already_generated`.
  pub Reachable-IsBuffer : (b : ReplayBuffer T) → Reachable max_size b → IsBuffer max_size b
  unfolding new_buffer
  Reachable-IsBuffer b (start h) = record {
    entries = [];
    last = negsuc 0;
    parallel = sym (ok-injective (raise_if-passes (max_size == 0) _ _ h).1);
    bounded = omega arith;
    up_to_last = tt;
  }
  Reachable-IsBuffer b (next r s) = step-IsBuffer s (Reachable-IsBuffer _ r)
