-- ===== src/Prelude/Lists.antt =====
-- Lists measured by native numbers, under the library's names.
use Prim.Native.Nat.{ℕ, zero, suc, ◌+◌, ◌-◌, min}
use mathlib.Core.Path.{◌≡◌, refl, ap}
use mathlib.Core.List.{List, [], ◌∷◌, ◌++◌}
use native.Mathlib.Omega.{arith}

module _ {ℓ} {A : Type ℓ} where
  abbrev pub length : List A → ℕ
  length [] = 0
  length (x ∷ xs) = suc (length xs)

  abbrev pub take : ℕ → List A → List A
  take zero xs = []
  take (suc n) [] = []
  take (suc n) (x ∷ xs) = x ∷ take n xs

  abbrev pub drop : ℕ → List A → List A
  drop zero xs = xs
  drop (suc n) [] = []
  drop (suc n) (x ∷ xs) = drop n xs

  -- The last row's value, or the default.
  abbrev pub latest {κ} : {B : Type κ} → (A → B) → B → List A → B
  latest f b [] = b
  latest f b (x ∷ xs) = latest f (f x) xs

  -- `lst.append(x)`, and the place where an INSERT puts its row.
  abbrev pub push : A → List A → List A
  push x xs = xs ++ (x ∷ [])

  pub length-append : (xs ys : List A) → length (xs ++ ys) ≡ length xs + length ys
  length-append [] ys = omega arith
  length-append (x ∷ xs) ys = omega (arith, length-append xs ys)

  pub length-take : (n : ℕ) (xs : List A) → length (take n xs) ≡ min n (length xs)
  length-take zero xs = omega arith
  length-take (suc n) [] = omega arith
  length-take (suc n) (x ∷ xs) = omega (arith, length-take n xs)

  pub length-drop : (n : ℕ) (xs : List A) → length (drop n xs) ≡ length xs - n
  length-drop zero xs = omega arith
  length-drop (suc n) [] = omega arith
  length-drop (suc n) (x ∷ xs) = omega (arith, length-drop n xs)

  pub latest-push {κ} :
      {B : Type κ} (f : A → B) (b : B) (x : A) (xs : List A) → latest f b (push x xs) ≡ f x
  latest-push f b x [] = refl
  latest-push f b x (y ∷ ys) = latest-push f (f y) x ys

-- A pair whose first part is known.
pub with_answer {ℓ κ} : {A : Type ℓ} {S : Type κ} (p : A × S) (a : A) → p.0 ≡ a → p ≡ (a, p.1)
with_answer (x, s) a h = ap (λ y. (y, s)) h
