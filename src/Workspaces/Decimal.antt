-- ===== src/Workspaces/Decimal.antt =====
-- `str` of an int that is not negative, and `slugify` of repositories/workspace_repo.py: a text as
-- its characters, and the decimal text of a number, from which the number can be read back.
use support_endpoint.Prelude.{
  ℕ, zero, suc, ◌+◌, ◌*◌, ◌/◌, ◌-◌, ◌<◌, ◌≡◌, refl, sym, ◌∙◌, ap, String, arith, if◌then◌else◌, ltb,
  Bool-cases, inl, inr,
}
use Prim.Native.Nat.{◌%◌}
use Prim.Native.Char.{Char, code}
use Prim.Native.String.{[], ◌∷◌, ◌++◌}
use text.Mathlib.TextLemmas.{nil-append, cons-append}

digit : ℕ → Char
digit zero = "0"
digit (suc zero) = "1"
digit (suc (suc zero)) = "2"
digit (suc (suc (suc zero))) = "3"
digit (suc (suc (suc (suc zero)))) = "4"
digit (suc (suc (suc (suc (suc zero))))) = "5"
digit (suc (suc (suc (suc (suc (suc zero)))))) = "6"
digit (suc (suc (suc (suc (suc (suc (suc zero))))))) = "7"
digit (suc (suc (suc (suc (suc (suc (suc (suc zero)))))))) = "8"
digit _ = "9"

decimal : ℕ → ℕ → String
unfolding digit
decimal zero n = []
decimal (suc fuel) n =
    let rest = decimal fuel (n / 10) in
    if ltb n 10 then digit n ∷ [] else rest ++ (digit (n % 10) ∷ [])

unfoldable pub str : ℕ → String
unfolding decimal
str n = decimal (suc n) n

read_from : ℕ → String → ℕ
read_from n [] = n
read_from n (c ∷ rest) = read_from (n * 10 + (code c - 48)) rest

read_from-append : (n : ℕ) (s t : String) → read_from n (s ++ t) ≡ read_from (read_from n s) t
unfolding read_from
read_from-append n [] t = ap (read_from n) (nil-append t)
read_from-append n (c ∷ rest) t =
    ap (read_from n) (cons-append c rest t) ∙ read_from-append (n * 10 + (code c - 48)) rest t

code-digit : (d : ℕ) → d < 10 → code (digit d) ≡ 48 + d
unfolding digit
code-digit zero lt = refl
code-digit (suc zero) lt = refl
code-digit (suc (suc zero)) lt = refl
code-digit (suc (suc (suc zero))) lt = refl
code-digit (suc (suc (suc (suc zero)))) lt = refl
code-digit (suc (suc (suc (suc (suc zero))))) lt = refl
code-digit (suc (suc (suc (suc (suc (suc zero)))))) lt = refl
code-digit (suc (suc (suc (suc (suc (suc (suc zero))))))) lt = refl
code-digit (suc (suc (suc (suc (suc (suc (suc (suc zero)))))))) lt = refl
code-digit (suc (suc (suc (suc (suc (suc (suc (suc (suc zero))))))))) lt = refl
code-digit (suc (suc (suc (suc (suc (suc (suc (suc (suc (suc d)))))))))) lt = absurd (omega arith)

read_from-decimal : (fuel n : ℕ) → n < fuel → read_from 0 (decimal fuel n) ≡ n
unfolding read_from decimal
read_from-decimal zero n lt = absurd (omega arith)
read_from-decimal (suc fuel) n lt = elim (Bool-cases (ltb n 10)) [
  | inl small ↦ rw small (ground (arith, code-digit n (ground arith)))
  | inr large ↦
      let before = read_from-decimal fuel (n / 10) (ground arith) in
      let last = code-digit (n % 10) (omega arith) in
      rw large (
        ground
          (arith, before, last, read_from-append 0 (decimal fuel (n / 10)) (digit (n % 10) ∷ [])))
]

pub str-injective : (a b : ℕ) → str a ≡ str b → a ≡ b
unfolding str
str-injective a b e =
    sym (read_from-decimal (suc a) a (omega arith))
    ∙ ap (read_from 0) e
    ∙ read_from-decimal (suc b) b (omega arith)
