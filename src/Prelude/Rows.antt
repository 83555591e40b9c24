-- ===== src/Prelude/Rows.antt =====
-- Tables as lists of rows: what a `select … where`, an UPDATE and a DELETE mean on them.
-- A row's columns are read by functions, so that the laws serve every table.

use mathlib.Core.Path.{◌≡◌, refl}
use mathlib.Core.Bool.{Bool, true, false, ◌||◌}
use mathlib.Core.Option.{Option, none, some}
use mathlib.Core.Option
use mathlib.Core.List.{List, [], ◌∷◌, ◌++◌}
use native.Mathlib.Omega.{arith}
use support_endpoint.Prelude.Tests.{if◌then◌else◌, is_some}
use support_endpoint.Prelude.Lists.{length}

module _ {ℓ} {A : Type ℓ} where
  -- `db.scalar(select(T).where(p))`: the first row, or None.
  unfoldable pub find : (A → Bool) → List A → Option A
  find p [] = none
  find p (x ∷ xs) = if p x then some x else find p xs

  -- `db.scalars(select(T).where(p))`: every row, in the table's order.
  unfoldable pub select : (A → Bool) → List A → List A
  select p [] = []
  select p (x ∷ xs) = let rest = select p xs in if p x then x ∷ rest else rest

  -- Assigning to columns of the rows that `p` picks.
  unfoldable pub modify_where : (A → Bool) → (A → A) → List A → List A
  modify_where p f [] = []
  modify_where p f (x ∷ xs) = (if p x then f x else x) ∷ modify_where p f xs

  -- Deleting the rows that `p` picks.
  unfoldable pub remove_where : (A → Bool) → List A → List A
  remove_where p [] = []
  remove_where p (x ∷ xs) = let rest = remove_where p xs in if p x then rest else x ∷ rest

  unfoldable pub any : (A → Bool) → List A → Bool
  any p [] = false
  any p (x ∷ xs) = p x || any p xs

  pub find-append :
      (p : A → Bool) (xs ys : List A)
      → find p (xs ++ ys) ≡ (if is_some (find p xs) then find p xs else find p ys)
  unfolding find
  find-append p [] ys = refl
  find-append p (x ∷ xs) ys = ground (arith, find-append p xs ys)

  pub find-append_some :
      (p : A → Bool) (xs ys : List A) (a : A) → find p xs ≡ some a → find p (xs ++ ys) ≡ some a
  find-append_some p xs ys a h = ground (arith, find-append p xs ys)

  pub find-push :
      (p : A → Bool) (x : A) (xs : List A)
      → find p xs ≡ none
      → p x ≡ true
      → find p (xs ++ (x ∷ [])) ≡ some x
  unfolding find
  find-push p x xs h k = ground (arith, find-append p xs (x ∷ []))

  -- The row that is found meets the test.
  pub find_sound : (p : A → Bool) (xs : List A) (a : A) → find p xs ≡ some a → p a ≡ true
  unfolding find
  find_sound p [] a h = cc
  find_sound p (x ∷ xs) a h = ground (arith, find_sound p xs a)

  -- An update that does not touch what the test reads is seen through.
  pub find-modify_where :
      (p q : A → Bool) (f : A → A) (xs : List A)
      → ((x : A) → p (f x) ≡ p x)
      → find p (modify_where q f xs) ≡ Option.map (λ x. if q x then f x else x) (find p xs)
  unfolding find modify_where
  find-modify_where p q f [] h = refl
  find-modify_where p q f (x ∷ xs) h = ground (arith, h x, find-modify_where p q f xs h)

  -- An update of rows that the test does not pick.
  pub find-modify_where_id :
      (p q : A → Bool) (f : A → A) (xs : List A)
      → ((x : A) → p (f x) ≡ p x)
      → ((x : A) → p x ≡ true → q x ≡ false)
      → find p (modify_where q f xs) ≡ find p xs
  unfolding find modify_where
  find-modify_where_id p q f [] h k = refl
  find-modify_where_id p q f (x ∷ xs) h k =
      ground (arith, h x, k x, find-modify_where_id p q f xs h k)

  pub select-append :
      (p : A → Bool) (xs ys : List A) → select p (xs ++ ys) ≡ select p xs ++ select p ys
  unfolding select
  select-append p [] ys = refl
  select-append p (x ∷ xs) ys = ground (arith, select-append p xs ys)

  pub select_none : (p : A → Bool) (x : A) → p x ≡ false → select p (x ∷ []) ≡ []
  unfolding select
  select_none p x h = ground arith

  -- Rows outside the selection may change, as long as they stay outside.
  pub select-modify_where_other :
      (p q : A → Bool) (f : A → A) (xs : List A)
      → ((x : A) → q x ≡ true → p x ≡ false)
      → ((x : A) → p (f x) ≡ p x)
      → select p (modify_where q f xs) ≡ select p xs
  unfolding select modify_where
  select-modify_where_other p q f [] h k = refl
  select-modify_where_other p q f (x ∷ xs) h k =
      ground (arith, h x, k x, select-modify_where_other p q f xs h k)

  pub select-modify_where_same :
      (p q : A → Bool) (f : A → A) (xs : List A)
      → ((x : A) → p (f x) ≡ p x)
      → select p (modify_where q f xs) ≡ modify_where q f (select p xs)
  unfolding select modify_where
  select-modify_where_same p q f [] h = refl
  select-modify_where_same p q f (x ∷ xs) h =
      ground (arith, h x, select-modify_where_same p q f xs h)

  pub select-remove_where_other :
      (p q : A → Bool) (xs : List A)
      → ((x : A) → q x ≡ true → p x ≡ false)
      → select p (remove_where q xs) ≡ select p xs
  unfolding select remove_where
  select-remove_where_other p q [] h = refl
  select-remove_where_other p q (x ∷ xs) h = ground (arith, h x, select-remove_where_other p q xs h)

  pub any-append : (p : A → Bool) (xs ys : List A) → any p (xs ++ ys) ≡ (any p xs || any p ys)
  unfolding any
  any-append p [] ys = refl
  any-append p (x ∷ xs) ys = ground (arith, any-append p xs ys)

  pub any-of_find : (p : A → Bool) (xs : List A) → any p xs ≡ is_some (find p xs)
  unfolding any find
  any-of_find p [] = refl
  any-of_find p (x ∷ xs) = ground (arith, any-of_find p xs)

  pub find-of_any : (p : A → Bool) (xs : List A) → any p xs ≡ false → find p xs ≡ none
  find-of_any p xs h = ground (arith, any-of_find p xs)

  -- A row that a stronger test finds.
  pub any_of-find :
      (p q : A → Bool) (xs : List A) (a : A)
      → ((x : A) → p x ≡ true → q x ≡ true)
      → find p xs ≡ some a
      → any q xs ≡ true
  unfolding any find
  any_of-find p q [] a weaker h = cc
  any_of-find p q (x ∷ xs) a weaker h = ground (arith, weaker x, any_of-find p q xs a weaker)

  pub any_of-found :
      (p q : A → Bool) (xs : List A) (a : A) → find p xs ≡ some a → q a ≡ true → any q xs ≡ true
  unfolding any find
  any_of-found p q [] a h k = cc
  any_of-found p q (x ∷ xs) a h k = ground (arith, h, k, any_of-found p q xs a)

  pub any-push :
      (p : A → Bool) (x : A) (xs : List A) → any p xs ≡ true → any p (xs ++ (x ∷ [])) ≡ true
  any-push p x xs h = ground (arith, any-append p xs (x ∷ []))

  pub any-push_new :
      (p : A → Bool) (x : A) (xs : List A) → p x ≡ true → any p (xs ++ (x ∷ [])) ≡ true
  unfolding any
  any-push_new p x xs h = ground (arith, any-append p xs (x ∷ []))

  pub length-modify_where :
      (q : A → Bool) (f : A → A) (xs : List A) → length (modify_where q f xs) ≡ length xs
  unfolding modify_where
  length-modify_where q f [] = refl
  length-modify_where q f (x ∷ xs) = omega (arith, length-modify_where q f xs)

  -- Two updates of the same rows are one.
  pub modify_where-modify_where :
      (q : A → Bool) (f g : A → A) (xs : List A)
      → ((x : A) → q x ≡ true → q (f x) ≡ true)
      → modify_where q g (modify_where q f xs) ≡ modify_where q (λ x. g (f x)) xs
  unfolding modify_where
  modify_where-modify_where q f g [] h = refl
  modify_where-modify_where q f g (x ∷ xs) h =
      ground (arith, h x, modify_where-modify_where q f g xs h)
