-- ===== src/Rollouts/Batch/Loops.antt =====
-- Loops over the active samples, which are those that pass a test.
use mathlib.Core.Path.{ap₂}
use nemo_rl_xtoken.Base.{
  ℕ, suc, ◌≡◌, refl, ap, ◌∙◌, Bool, true, false, not, ◌&&◌, List, [], ◌∷◌, map, ok, ◌>>=◌, get_or,
  filter, modify, indices_where, indices-suc, if◌then◌else◌,
}
use nemo_rl_xtoken.Rollouts.Sample.{Generation, EnvAnswer}
use nemo_rl_xtoken.Rollouts.Batch.{for_active, select_active, continuing, observed}

module _ {V S : Type 0} (f : V → S → S) where
  for_active-suc :
      (is : List ℕ) (vs : List V) (x : S) (xs : List S)
      → for_active f (map suc is) vs (x ∷ xs) ≡ (for_active f is vs xs >>= λ ys. ok (x ∷ ys))
  unfolding for_active
  for_active-suc [] vs x xs = refl
  for_active-suc (i ∷ is) [] x xs = refl
  for_active-suc (i ∷ is) (v ∷ vs) x xs = for_active-suc is vs x (modify i (f v) xs)

  module _ {A : Type 0} (test : A → Bool) (v : A → V) (h : A → S) where
    -- A loop writes each value to the sample that it was made for.
    pub for_active-where :
        (xs : List A)
        → for_active f (indices_where test 0 xs) (map v (filter test xs)) (map h xs)
          ≡ ok (map (λ x. if test x then f (v x) (h x) else h x) xs)
    unfolding for_active indices_where
    for_active-where [] = refl
    for_active-where (x ∷ xs) = go (test x) (for_active-where xs)
      where
        shifted : indices_where test 1 xs ≡ map suc (indices_where test 0 xs)
        shifted = indices-suc test 0 xs

        rest :
            (y : S)
            → for_active f (indices_where test 0 xs) (map v (filter test xs)) (map h xs)
              ≡ ok (map (λ x. if test x then f (v x) (h x) else h x) xs)
            → for_active f (indices_where test 1 xs) (map v (filter test xs)) (y ∷ map h xs)
              ≡ ok (y ∷ map (λ x. if test x then f (v x) (h x) else h x) xs)
        rest y ih =
            ap (λ is. for_active f is (map v (filter test xs)) (y ∷ map h xs)) shifted
            ∙ for_active-suc (indices_where test 0 xs) (map v (filter test xs)) y (map h xs)
            ∙ ap (λ r. r >>= λ ys. ok (y ∷ ys)) ih

        go :
            (b : Bool)
            → for_active f (indices_where test 0 xs) (map v (filter test xs)) (map h xs)
              ≡ ok (map (λ x. if test x then f (v x) (h x) else h x) xs)
            → for_active f
                (if b then 0 ∷ indices_where test 1 xs else indices_where test 1 xs)
                (map v (if b then x ∷ filter test xs else filter test xs))
                (h x ∷ map h xs)
              ≡ ok (
                  (if b then f (v x) (h x) else h x)
                  ∷ map (λ x. if test x then f (v x) (h x) else h x) xs)
        go true ih = rest (f (v x) (h x)) ih
        go false ih = rest (h x) ih

map-get_or :
    {S : Type 0} (d x : S) (xs : List S) (is : List ℕ)
    → map (λ i. get_or (x ∷ xs) i d) (map suc is) ≡ map (λ i. get_or xs i d) is
map-get_or d x xs [] = refl
map-get_or d x xs (i ∷ is) = ap (λ l. get_or xs i d ∷ l) (map-get_or d x xs is)

pub select_active-where :
    {A S : Type 0} (d : S) (test : A → Bool) (h : A → S) (xs : List A)
    → select_active d (indices_where test 0 xs) (map h xs) ≡ map h (filter test xs)
unfolding indices_where
select_active-where d test h [] = refl
select_active-where d test h (x ∷ xs) = go (test x) (
    ap (map (λ i. get_or (h x ∷ map h xs) i d)) (indices-suc test 0 xs)
    ∙ map-get_or d (h x) (map h xs) (indices_where test 0 xs)
    ∙ select_active-where d test h xs)
  where
    go :
        (b : Bool)
        → map (λ i. get_or (h x ∷ map h xs) i d) (indices_where test 1 xs) ≡ map h (filter test xs)
        → map
            (λ i. get_or (h x ∷ map h xs) i d)
            (if b then 0 ∷ indices_where test 1 xs else indices_where test 1 xs)
          ≡ map h (if b then x ∷ filter test xs else filter test xs)
    go true rest = ap (λ l. h x ∷ l) rest
    go false rest = rest

module _ {A : Type 0} (test d : A → Bool) where
  abbrev pub goes_on : A → Bool
  goes_on x = test x && not (d x)

  pub continuing-indices :
      (k : ℕ) (xs : List A)
      → continuing (map d (filter test xs)) (indices_where test k xs) ≡ indices_where goes_on k xs
  unfolding indices_where
  continuing-indices k [] = refl
  continuing-indices k (x ∷ xs) = go (test x) (continuing-indices (suc k) xs)
    where
      inner :
          (e : Bool)
          → continuing (map d (filter test xs)) (indices_where test (suc k) xs)
            ≡ indices_where goes_on (suc k) xs
          → continuing (e ∷ map d (filter test xs)) (k ∷ indices_where test (suc k) xs) ≡ (
              if not e
              then k ∷ indices_where goes_on (suc k) xs
              else indices_where goes_on (suc k) xs)
      inner true ih = ih
      inner false ih = ap (λ l. k ∷ l) ih

      go :
          (b : Bool)
          → continuing (map d (filter test xs)) (indices_where test (suc k) xs)
            ≡ indices_where goes_on (suc k) xs
          → continuing
              (map d (if b then x ∷ filter test xs else filter test xs))
              (if b then k ∷ indices_where test (suc k) xs else indices_where test (suc k) xs)
            ≡ (if b && not (d x)
                then k ∷ indices_where goes_on (suc k) xs
                else indices_where goes_on (suc k) xs)
      go true ih = inner (d x) ih
      go false ih = ih

  pub continuing-map :
      {V : Type 0} (v : A → V) (xs : List A)
      → continuing (map d (filter test xs)) (map v (filter test xs)) ≡ map v (filter goes_on xs)
  continuing-map v [] = refl
  continuing-map v (x ∷ xs) = go (test x) (continuing-map v xs)
    where
      inner :
          (e : Bool)
          → continuing (map d (filter test xs)) (map v (filter test xs)) ≡ map v (filter goes_on xs)
          → continuing (e ∷ map d (filter test xs)) (v x ∷ map v (filter test xs))
            ≡ map v (if not e then x ∷ filter goes_on xs else filter goes_on xs)
      inner true ih = ih
      inner false ih = ap (λ l. v x ∷ l) ih

      go :
          (b : Bool)
          → continuing (map d (filter test xs)) (map v (filter test xs)) ≡ map v (filter goes_on xs)
          → continuing
              (map d (if b then x ∷ filter test xs else filter test xs))
              (map v (if b then x ∷ filter test xs else filter test xs))
            ≡ map v (if b && not (d x) then x ∷ filter goes_on xs else filter goes_on xs)
      go true ih = inner (d x) ih
      go false ih = ih

pub observed-map :
    {A I R : Type 0} (n : A → ℕ) (g : A → Generation) (a : A → EnvAnswer I R) (xs : List A)
    → observed (map n xs) (map g xs) (map a xs)
      ≡ map (λ x. record { input_length = n x; generation = g x; answer = a x }) xs
observed-map n g a [] = refl
observed-map n g a (x ∷ xs) =
    ap (λ l. record { input_length = n x; generation = g x; answer = a x } ∷ l)
      (observed-map n g a xs)

pub map-filter_eq :
    {A B : Type 0} (test : A → Bool) (f g : A → B)
    → ((x : A) → test x ≡ true → f x ≡ g x)
    → (xs : List A) → map f (filter test xs) ≡ map g (filter test xs)
map-filter_eq test f g e [] = refl
map-filter_eq test f g e (x ∷ xs) = go (test x) refl (map-filter_eq test f g e xs)
  where
    go :
        (b : Bool)
        → test x ≡ b
        → map f (filter test xs) ≡ map g (filter test xs)
        → map f (if b then x ∷ filter test xs else filter test xs)
          ≡ map g (if b then x ∷ filter test xs else filter test xs)
    go true h ih = ap₂ (λ y ys. y ∷ ys) (e x h) ih
    go false h ih = ih

pub indices_where-eq :
    {A B : Type 0} (p : A → Bool) (q : B → Bool) (f : A → B)
    → ((x : A) → p x ≡ q (f x))
    → (k : ℕ) (xs : List A) → indices_where p k xs ≡ indices_where q k (map f xs)
unfolding indices_where
indices_where-eq p q f e k [] = refl
indices_where-eq p q f e k (x ∷ xs) =
    ap₂ (λ b ys. if b then k ∷ ys else ys) (e x) (indices_where-eq p q f e (suc k) xs)

pub map_same : {A : Type 0} (xs : List A) → map (λ x. x) xs ≡ xs
map_same [] = refl
map_same (x ∷ xs) = ap (λ l. x ∷ l) (map_same xs)

pub map-eq_all :
    {A B : Type 0} (f g : A → B) → ((x : A) → f x ≡ g x) → (xs : List A) → map f xs ≡ map g xs
map-eq_all f g e [] = refl
map-eq_all f g e (x ∷ xs) = ap₂ (λ y ys. y ∷ ys) (e x) (map-eq_all f g e xs)
