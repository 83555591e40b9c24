-- ===== src/Prelude/Order.antt =====
-- ORDER BY a number. Rows with one number come in the order of their insertion.
use Prim.Native.Nat.{ℕ, ◌<◌}
use mathlib.Core.Path.{◌≡◌, refl, ap, ◌∙◌}
use mathlib.Core.Logic.{inl, inr}
use mathlib.Core.Bool.{Bool, ◌||◌}
use mathlib.Core.List.{List, [], ◌∷◌}
use native.Mathlib.Omega.{arith}
use support_endpoint.Prelude.Tests.{if◌then◌else◌, Bool-cases, leb}
use support_endpoint.Prelude.Lists.{push}
use support_endpoint.Prelude.Rows.{select, any}
use support_endpoint.Prelude.Members.{All, All-push}

module _ {ℓ} {A : Type ℓ} (key : A → ℕ) where
  unfoldable pub insert_by : A → List A → List A
  insert_by x [] = x ∷ []
  insert_by x (y ∷ ys) =
      let rest = insert_by x ys in if leb (key x) (key y) then x ∷ y ∷ ys else y ∷ rest

  unfoldable pub sort_by : List A → List A
  unfolding insert_by
  sort_by [] = []
  sort_by (x ∷ xs) = insert_by x (sort_by xs)

  -- Each row comes before those after it.
  abbrev pub IsAscending : List A → Type ℓ
  IsAscending [] = Unit
  IsAscending (x ∷ xs) = All (λ y. key x < key y) xs × IsAscending xs

  insert_by-first : (x : A) (ys : List A) → All (λ y. key x < key y) ys → insert_by x ys ≡ x ∷ ys
  unfolding insert_by
  insert_by-first x [] h = refl
  insert_by-first x (y ∷ ys) h = ground (arith, h.0)

  pub sort_by-ascending : (xs : List A) → IsAscending xs → sort_by xs ≡ xs
  unfolding sort_by
  sort_by-ascending [] h = refl
  sort_by-ascending (x ∷ xs) h =
      ap (insert_by x) (sort_by-ascending xs h.1) ∙ insert_by-first x xs h.0

  insert_by-push :
      (x m : A) (ys : List A) → key x < key m → insert_by x (push m ys) ≡ push m (insert_by x ys)
  unfolding insert_by
  insert_by-push x m [] h = ground (arith, h)
  insert_by-push x m (y ∷ ys) h = ground (arith, insert_by-push x m ys h)

  -- A row after all the others is the last.
  pub sort_by-push :
      (m : A) (xs : List A)
      → All (λ x. key x < key m) xs
      → sort_by (push m xs) ≡ push m (sort_by xs)
  unfolding sort_by
  sort_by-push m [] h = refl
  sort_by-push m (x ∷ xs) h =
      ap (insert_by x) (sort_by-push m xs h.1) ∙ insert_by-push x m (sort_by xs) h.0

  any-insert_by : (p : A → Bool) (x : A) (ys : List A) → any p (insert_by x ys) ≡ any p (x ∷ ys)
  unfolding insert_by any
  any-insert_by p x [] = refl
  any-insert_by p x (y ∷ ys) = ground (arith, any-insert_by p x ys)

  pub any-sort_by : (p : A → Bool) (xs : List A) → any p (sort_by xs) ≡ any p xs
  unfolding sort_by any
  any-sort_by p [] = refl
  any-sort_by p (x ∷ xs) = any-insert_by p x (sort_by xs) ∙ ap (λ b. p x || b) (any-sort_by p xs)

  pub IsAscending-push :
      (m : A) (xs : List A) → All (λ x. key x < key m) xs → IsAscending xs → IsAscending (push m xs)
  IsAscending-push m [] h k = (tt, tt)
  IsAscending-push m (x ∷ xs) h k =
      (All-push (λ y. key x < key y) m xs k.0 h.0, IsAscending-push m xs h.1 k.1)

  pub All-select {κ} :
      (P : A → Type κ) (p : A → Bool) (xs : List A) → All P xs → All P (select p xs)
  unfolding select
  All-select P p [] h = tt
  All-select P p (x ∷ xs) h = elim (Bool-cases (p x)) [
    | inl e ↦ rw e (h.0, All-select P p xs h.1)
    | inr e ↦ rw e (All-select P p xs h.1)
  ]

  pub IsAscending-select : (p : A → Bool) (xs : List A) → IsAscending xs → IsAscending (select p xs)
  unfolding select
  IsAscending-select p [] h = tt
  IsAscending-select p (x ∷ xs) h = elim (Bool-cases (p x)) [
    | inl e ↦ rw e (All-select (λ y. key x < key y) p xs h.0, IsAscending-select p xs h.1)
    | inr e ↦ rw e (IsAscending-select p xs h.1)
  ]
