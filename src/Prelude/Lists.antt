-- ===== src/Prelude/Lists.antt =====
-- Lists measured by native numbers, and searches by Boolean tests (the library's `any`, `all` and
-- `filter` take decisions, and the first two do not run).
use Prim.Native.Nat.{ℕ, zero, suc, ◌+◌, ◌≤◌}
use mathlib.Core.Path.{◌≡◌, refl}
use mathlib.Core.Bool.{Bool, true, false, ◌&&◌, ◌||◌}
use mathlib.Core.List.{List, [], ◌∷◌, ◌++◌}
use mathlib.Core.Option.{Option, none, some}
use native.Mathlib.Omega.{arith}
use terminal_access_manager.Prelude.Tests.{if◌then◌else◌, is_some}

module _ {ℓ} {A : Type ℓ} where
  abbrev pub length : List A → ℕ
  length [] = 0
  length (x ∷ xs) = suc (length xs)

  abbrev pub take : ℕ → List A → List A
  take zero xs = []
  take (suc n) [] = []
  take (suc n) (x ∷ xs) = x ∷ take n xs

  abbrev pub drop : ℕ → List A → List A
  drop zero xs = xs
  drop (suc n) [] = []
  drop (suc n) (x ∷ xs) = drop n xs

  unfoldable pub any : (A → Bool) → List A → Bool
  any p [] = false
  any p (x ∷ xs) = p x || any p xs

  unfoldable pub all : (A → Bool) → List A → Bool
  all p [] = true
  all p (x ∷ xs) = p x && all p xs

  -- The rows for which a condition holds, in order.
  unfoldable pub select : (A → Bool) → List A → List A
  select p [] = []
  select p (x ∷ xs) = let rest = select p xs in if p x then x ∷ rest else rest

  -- The first row for which a condition holds.
  unfoldable pub find : (A → Bool) → List A → Option A
  find p [] = none
  find p (x ∷ xs) = if p x then some x else find p xs

  pub length-append : (xs ys : List A) → length (xs ++ ys) ≡ length xs + length ys
  length-append [] ys = omega arith
  length-append (x ∷ xs) ys = omega (arith, length-append xs ys)

  pub length-select-le : (p : A → Bool) (xs : List A) → length (select p xs) ≤ length xs
  unfolding select
  length-select-le p [] = omega arith
  length-select-le p (x ∷ xs) = ground (arith, length-select-le p xs)

  pub is_some-find : (p : A → Bool) (xs : List A) → is_some (find p xs) ≡ any p xs
  unfolding find any
  is_some-find p [] = refl
  is_some-find p (x ∷ xs) = ground (arith, is_some-find p xs)

  -- What `find` returns passes the test.
  pub find-holds : (p : A → Bool) (xs : List A) (a : A) → find p xs ≡ some a → p a ≡ true
  unfolding find
  find-holds p [] a h = ground arith
  find-holds p (x ∷ xs) a h = ground (arith, find-holds p xs a)

  pub all-select : (p : A → Bool) (xs : List A) → all p (select p xs) ≡ true
  unfolding all select
  all-select p [] = refl
  all-select p (x ∷ xs) = ground (arith, all-select p xs)

  pub any-append : (p : A → Bool) (xs ys : List A) → any p (xs ++ ys) ≡ (any p xs || any p ys)
  unfolding any
  any-append p [] ys = refl
  any-append p (x ∷ xs) ys = ground (arith, any-append p xs ys)

  -- The order of two conditions does not matter.
  pub select_comm : (p q : A → Bool) (xs : List A) → select p (select q xs) ≡ select q (select p xs)
  unfolding select
  select_comm p q [] = refl
  select_comm p q (x ∷ xs) = ground (arith, select_comm p q xs)

  pub all-snoc :
      (p : A → Bool) (xs : List A) (x : A)
      → all p xs ≡ true
      → p x ≡ true
      → all p (xs ++ x ∷ []) ≡ true
  unfolding all
  all-snoc p [] x h k = ground arith
  all-snoc p (y ∷ xs) x h k = ground (arith, all-snoc p xs x)

  -- What holds of every row holds of those selected, and of one that is found.
  pub all-select-of : (p q : A → Bool) (xs : List A) → all p xs ≡ true → all p (select q xs) ≡ true
  unfolding all select
  all-select-of p q [] h = refl
  all-select-of p q (x ∷ xs) h = ground (arith, all-select-of p q xs)

  pub all-find :
      (p q : A → Bool) (xs : List A) (a : A) → all p xs ≡ true → find q xs ≡ some a → p a ≡ true
  unfolding all find
  all-find p q [] a h k = ground arith
  all-find p q (x ∷ xs) a h k = ground (arith, all-find p q xs a)

  -- What follows from a condition holds of some row with it.
  pub any_mono :
      (p q : A → Bool) (xs : List A)
      → ((x : A) → p x ≡ true → q x ≡ true)
      → any p xs ≡ true
      → any q xs ≡ true
  unfolding any
  any_mono p q [] f h = ground arith
  any_mono p q (x ∷ xs) f h = ground (arith, f x, any_mono p q xs f)

  pub all_mono :
      (p q : A → Bool) (xs : List A)
      → ((x : A) → p x ≡ true → q x ≡ true)
      → all p xs ≡ true
      → all q xs ≡ true
  unfolding all
  all_mono p q [] f h = refl
  all_mono p q (x ∷ xs) f h = ground (arith, f x, all_mono p q xs f)

  -- What every row of two lists passes, every row of both in a row passes.
  pub all-append :
      (p : A → Bool) (s t : List A) → all p s ≡ true → all p t ≡ true → all p (s ++ t) ≡ true
  unfolding all
  all-append p [] t h k = k
  all-append p (c ∷ s) t h k = ground (arith, all-append p s t)

  pub all_and :
      (p q : A → Bool) (xs : List A)
      → all p xs ≡ true
      → all q xs ≡ true
      → all (λ x. p x && q x) xs ≡ true
  unfolding all
  all_and p q [] h k = refl
  all_and p q (x ∷ xs) h k = ground (arith, all_and p q xs)
