-- ===== src/Communication/Names.antt =====
-- The name under which an attachment is stored.
use support_endpoint.Prelude.{
  ℕ, ◌≤◌, ◌≡◌, ◌≢◌, refl, Bool, true, false, ◌&&◌, ◌||◌, List, [], ◌∷◌, map, push, length, select,
  ◌==◌, ltb, if◌then◌else◌, arith, All, All-push, Bool-cases, inl, inr, ◌⊎◌,
}
use support_endpoint.Session.{Session, ok, err, Error, validation}
use support_endpoint.Communication.Filename.{
  FileTools, is_empty, is_dots, to_slash, last_part, lstrip, rstrip, is_kept, normalize,
  safe_filename,
}

-- A character that names no directory and starts no line.
abbrev pub IsPlain : FileTools → ℕ → Type 0
IsPlain tools c =
    (c ≢ 47) × (c ≢ 92) × (c ≢ 13) × (c ≢ 10) × (c ≢ 0) × (tools.is_printable c ≡ true)

-- A name that stays within its directory and within the column.
pub record IsSafe (tools : FileTools) (name : List ℕ) : Type 0 where
  pub plain : All (IsPlain tools) name
  pub named : is_empty name ≡ false
  pub inside : is_dots name ≡ false
  pub short : length name ≤ 255

abbrev NoSlash : ℕ → Type 0
NoSlash c = (c ≢ 47) × (c ≢ 92)

to_slash-ne : (xs : List ℕ) → All (λ c. c ≢ 92) (map to_slash xs)
to_slash-ne [] = tt
to_slash-ne (c ∷ xs) = (ground arith, to_slash-ne xs)

last_part-NoSlash :
    (part xs : List ℕ) → All NoSlash part → All (λ c. c ≢ 92) xs → All NoSlash (last_part part xs)
unfolding last_part
last_part-NoSlash part [] h k = h
last_part-NoSlash part (c ∷ xs) h k =
    last_part-NoSlash (if c == 47 then [] else push c part) xs
      (elim (Bool-cases (c == 47)) [
        | inl e ↦ rw e tt
        | inr e ↦ rw e (All-push NoSlash c part h (ground arith, k.0))
      ])
      k.1

module _ (P : ℕ → Type 0) (is_space : ℕ → Bool) where
  lstrip-All : (xs : List ℕ) → All P xs → All P (lstrip is_space xs)
  unfolding lstrip
  lstrip-All [] h = h
  lstrip-All (c ∷ xs) h = elim (Bool-cases (is_space c)) [
    | inl e ↦ rw e (lstrip-All xs h.1)
    | inr e ↦ rw e h
  ]

  rstrip-All : (xs : List ℕ) → All P xs → All P (rstrip is_space xs)
  unfolding rstrip
  rstrip-All [] h = h
  rstrip-All (c ∷ xs) h = elim (Bool-cases (is_space c && is_empty (rstrip is_space xs))) [
    | inl e ↦ rw e tt
    | inr e ↦ rw e (h.0, rstrip-All xs h.1)
  ]

module _ (tools : FileTools) where
  select-IsPlain : (xs : List ℕ) → All NoSlash xs → All (IsPlain tools) (select (is_kept tools) xs)
  unfolding select is_kept
  select-IsPlain [] h = tt
  select-IsPlain (c ∷ xs) h = elim (Bool-cases (is_kept tools c)) [
    | inl e ↦ rw e (
      (h.0.0, h.0.1, ground (arith, e), ground (arith, e), ground (arith, e), ground (arith, e)),
      select-IsPlain xs h.1,
    )
    | inr e ↦ rw e (select-IsPlain xs h.1)
  ]

  normalize-IsPlain : (xs : List ℕ) → All (IsPlain tools) (normalize tools xs)
  unfolding normalize
  normalize-IsPlain xs = select-IsPlain _ (
      rstrip-All NoSlash tools.is_space _ (
        lstrip-All NoSlash tools.is_space _
          (last_part-NoSlash [] (map to_slash xs) tt (to_slash-ne xs))))

  -- How the check of a name ends: it refuses, or it gives a safe name.
  pub safe_filename-cases :
      (xs : List ℕ) (s : Session)
      → ((name : List ℕ) × (safe_filename tools xs s ≡ (ok name, s)) × IsSafe tools name)
        ⊎ ((e : Error) × (safe_filename tools xs s ≡ (err e, s)))
  unfolding safe_filename
  safe_filename-cases xs s =
      let name = normalize tools xs in
      elim (Bool-cases (is_empty name || (is_dots name || ltb 255 (length name)))) [
        | inl e ↦ inr (
          validation "attachment filename is required and must be <= 255 printable characters",
          rw e refl,
        )
        | inr e ↦ inl (
          name,
          rw e refl,
          record {
            plain = normalize-IsPlain xs;
            named = ground arith;
            inside = ground arith;
            short = ground arith;
          },
        )
      ]
