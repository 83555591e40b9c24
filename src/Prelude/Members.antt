-- ===== src/Prelude/Members.antt =====
-- A predicate on every row of a table, by recursion, so that the tactics take it apart.
use mathlib.Core.Path.{◌≡◌, refl, sym, subst}
use mathlib.Core.Logic.{◌↔◌, ◌⊎◌, inl, inr, Lift}
use mathlib.Core.Bool.{Bool, true, false}
use mathlib.Core.Option.{none, some}
use mathlib.Core.List.{List, [], ◌∷◌, ◌++◌}
use native.Mathlib.Omega.{arith}
use support_endpoint.Prelude.Tests.{if◌then◌else◌, Bool-cases}
use support_endpoint.Prelude.Lists.{push}
use support_endpoint.Prelude.Rows.{find, modify_where, remove_where, select, any}

abbrev pub All {ℓ κ} : {A : Type ℓ} → (A → Type κ) → List A → Type κ
All P [] = Unit
All P (x ∷ xs) = P x × All P xs

module _ {ℓ κ} {A : Type ℓ} (P : A → Type κ) where
  pub All-append : (xs ys : List A) → All P xs → All P ys → All P (xs ++ ys)
  All-append [] ys hx hy = hy
  All-append (x ∷ xs) ys hx hy = (hx.0, All-append xs ys hx.1 hy)

  pub All-push : (x : A) (xs : List A) → All P xs → P x → All P (push x xs)
  All-push x xs hs h = All-append xs (x ∷ []) hs (h, tt)

  pub All-remove_where : (q : A → Bool) (xs : List A) → All P xs → All P (remove_where q xs)
  unfolding remove_where
  All-remove_where q [] hs = tt
  All-remove_where q (x ∷ xs) hs = step (q x) (All-remove_where q xs hs.1)
    where
      step :
          (b : Bool)
          → All P (remove_where q xs)
          → All P (let rest = remove_where q xs in if b then rest else x ∷ rest)
      step true k = k
      step false k = (hs.0, k)

  pub All-find : (q : A → Bool) (xs : List A) (a : A) → All P xs → find q xs ≡ some a → P a
  unfolding find
  All-find q [] a hs e = absurd (cc)
  All-find q (x ∷ xs) a hs e = step (q x) e (All-find q xs a hs.1)
    where
      step :
          (b : Bool) → (if b then some x else find q xs) ≡ some a → (find q xs ≡ some a → P a) → P a
      step true e' k = subst P (cc) hs.0
      step false e' k = k e'

pub All-zip {ℓ κ μ} :
    {A : Type ℓ} (P : A → Type κ) (Q : A → Type μ) (xs : List A)
    → All P xs
    → All Q xs
    → All (λ x. P x × Q x) xs
All-zip P Q [] hp hq = tt
All-zip P Q (x ∷ xs) hp hq = ((hp.0, hq.0), All-zip P Q xs hp.1 hq.1)

module _ {ℓ κ μ} {A : Type ℓ} {P : A → Type κ} {Q : A → Type μ} where
  -- The rows that are picked are rewritten, the others stay.
  pub All-modify_where :
      (q : A → Bool) (f : A → A) (xs : List A)
      → ((x : A) → q x ≡ true → P x → Q (f x))
      → ((x : A) → q x ≡ false → P x → Q x)
      → All P xs
      → All Q (modify_where q f xs)
  unfolding modify_where
  All-modify_where q f [] h k hs = tt
  All-modify_where q f (x ∷ xs) h k hs = (step (q x) (h x) (k x), All-modify_where q f xs h k hs.1)
    where
      step :
          (b : Bool)
          → (b ≡ true → P x → Q (f x))
          → (b ≡ false → P x → Q x)
          → Q (if b then f x else x)
      step true h' k' = h' refl hs.0
      step false h' k' = k' refl hs.0

  pub All-map : (xs : List A) → ((x : A) → P x → Q x) → All P xs → All Q xs
  All-map [] f hs = tt
  All-map (x ∷ xs) f hs = (f x hs.0, All-map xs f hs.1)

-- Some row meets the predicate.
abbrev pub Any {ℓ κ} : {A : Type ℓ} → (A → Type κ) → List A → Type κ
Any P [] = Lift ⊥
Any P (x ∷ xs) = P x ⊎ Any P xs

-- A Boolean search decides whether a row is there.
pub any-true_iff {ℓ} :
    {A : Type ℓ} (p : A → Bool) (xs : List A) → (any p xs ≡ true) ↔ Any (λ x. p x ≡ true) xs
unfolding any
any-true_iff p [] = (λ h. cc, λ h. absurd h.lower)
any-true_iff p (x ∷ xs) = elim (Bool-cases (p x)) [
  | inl h ↦ (λ _. inl h, λ _. rw h)
  | inr h ↦ (
    λ k. inr ((any-true_iff p xs).0 (rw h at k)),
    λ k. elim k [ inl e ↦ cc | inr m ↦ rw h ((any-true_iff p xs).1 m) ],
  )
]

pub Any-iff {ℓ κ μ} :
    {A : Type ℓ} {P : A → Type κ} {Q : A → Type μ} (xs : List A)
    → ((x : A) → P x ↔ Q x)
    → Any P xs ↔ Any Q xs
Any-iff [] h = (λ k. absurd k.lower, λ k. absurd k.lower)
Any-iff (x ∷ xs) h = (
  λ k. elim k [ inl e ↦ inl ((h x).0 e) | inr m ↦ inr ((Any-iff xs h).0 m) ],
  λ k. elim k [ inl e ↦ inl ((h x).1 e) | inr m ↦ inr ((Any-iff xs h).1 m) ],
)

-- Rows outside the selection may change, as long as they stay outside.
pub select-modify_where-All {ℓ} :
    {A : Type ℓ} (p q : A → Bool) (f : A → A) (xs : List A)
    → All (λ x. q x ≡ true → p x ≡ false) xs
    → ((x : A) → p (f x) ≡ p x)
    → select p (modify_where q f xs) ≡ select p xs
unfolding select modify_where
select-modify_where-All p q f [] h k = refl
select-modify_where-All p q f (x ∷ xs) h k =
    ground (arith, h.0, k x, select-modify_where-All p q f xs h.1 k)

pub select-empty {ℓ} :
    {A : Type ℓ} (p : A → Bool) (xs : List A) → All (λ x. p x ≡ false) xs → select p xs ≡ []
unfolding select
select-empty p [] h = refl
select-empty p (x ∷ xs) h = ground (arith, h.0, select-empty p xs h.1)

-- A pushed row joins the selection, or does not.
pub select-push {ℓ} :
    {A : Type ℓ} (p : A → Bool) (x : A) (xs : List A)
    → select p (push x xs) ≡ (if p x then push x (select p xs) else select p xs)
unfolding select
select-push p x [] = refl
select-push p x (y ∷ ys) = ground (arith, select-push p x ys)

-- Tests that agree on the rows select the same.
pub select-same {ℓ} :
    {A : Type ℓ} (p q : A → Bool) (xs : List A)
    → All (λ x. p x ≡ q x) xs
    → select p xs ≡ select q xs
unfolding select
select-same p q [] h = refl
select-same p q (x ∷ xs) h = ground (arith, h.0, select-same p q xs h.1)

-- A row is found among the selected rows, if the selection leaves out none that the test picks.
pub find-select {ℓ} :
    {A : Type ℓ} (p q : A → Bool) (xs : List A)
    → ((x : A) → p x ≡ true → q x ≡ true)
    → find p (select q xs) ≡ find p xs
unfolding find select
find-select p q [] h = refl
find-select p q (x ∷ xs) h = ground (arith, h x, find-select p q xs h)

-- Nothing is found where no row meets the test.
pub All-of_find {ℓ} :
    {A : Type ℓ} (p : A → Bool) (xs : List A) → find p xs ≡ none → All (λ x. p x ≡ false) xs
unfolding find
All-of_find p [] h = tt
All-of_find p (x ∷ xs) h = (ground (arith, h), All-of_find p xs (ground (arith, h)))

pub any-of_All {ℓ} :
    {A : Type ℓ} (p : A → Bool) (xs : List A) → All (λ x. p x ≡ false) xs → any p xs ≡ false
unfolding any
any-of_All p [] h = refl
any-of_All p (x ∷ xs) h = ground (arith, h.0, any-of_All p xs h.1)

-- The row that is found is there.
pub Any-of_find {ℓ κ} :
    {A : Type ℓ} (P : A → Type κ) (p : A → Bool) (xs : List A) (a : A)
    → find p xs ≡ some a
    → P a
    → Any P xs
unfolding find
Any-of_find P p [] a h k = absurd (cc)
Any-of_find P p (x ∷ xs) a h k = elim (Bool-cases (p x)) [
  | inl e ↦ let same : x ≡ a = ground arith in inl (subst P (sym same) k)
  | inr e ↦ inr (Any-of_find P p xs a (rw e at h) k)
]
