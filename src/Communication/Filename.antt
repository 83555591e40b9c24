-- ===== src/Communication/Filename.antt =====
-- `CommunicationService._safe_filename`, on the code points of a name.
use support_endpoint.Prelude.{
  ℕ, Bool, true, false, not, ◌&&◌, ◌||◌, List, [], ◌∷◌, map, push, length, select, ◌==◌, ltb,
  if◌then◌else◌,
}
use support_endpoint.Session.{Action, validation, ◌>>◌, pure, raise_if}

-- What the code calls: `str.isprintable` of one character, the white space that `str.strip` removes,
-- and `hashlib.sha256(content).hexdigest()`.
pub record FileTools : Type 0 where
  pub is_printable : ℕ → Bool
  pub is_space : ℕ → Bool
  pub sha256 : List ℕ → List ℕ

abbrev pub is_empty {ℓ} : {A : Type ℓ} → List A → Bool
is_empty [] = true
is_empty (x ∷ xs) = false

-- `filename.replace("\\", "/")`
abbrev pub to_slash : ℕ → ℕ
to_slash c = if c == 92 then 47 else c

-- `text.split("/")[-1]`, after the characters `part` of a segment.
unfoldable pub last_part : List ℕ → List ℕ → List ℕ
last_part part [] = part
last_part part (c ∷ rest) = last_part (if c == 47 then [] else push c part) rest

-- The two halves of `text.strip()`.
unfoldable pub lstrip : (ℕ → Bool) → List ℕ → List ℕ
lstrip is_space [] = []
lstrip is_space (c ∷ rest) =
    let after = lstrip is_space rest in if is_space c then after else c ∷ rest

unfoldable pub rstrip : (ℕ → Bool) → List ℕ → List ℕ
rstrip is_space [] = []
rstrip is_space (c ∷ rest) =
    let after = rstrip is_space rest in if is_space c && is_empty after then [] else c ∷ after

-- `normalized in {".", ".."}`
abbrev pub is_dots : List ℕ → Bool
is_dots [] = false
is_dots (a ∷ []) = a == 46
is_dots (a ∷ b ∷ []) = a == 46 && b == 46
is_dots (a ∷ b ∷ c ∷ rest) = false

module _ (tools : FileTools) where
  -- `ch.isprintable() and ch not in "\r\n\x00"`
  unfoldable pub is_kept : ℕ → Bool
  is_kept c = tools.is_printable c && not (c == 13 || (c == 10 || c == 0))

  -- `normalized`
  unfoldable pub normalize : List ℕ → List ℕ
  unfolding last_part lstrip rstrip is_kept
  normalize filename =
      select is_kept
        (rstrip tools.is_space (lstrip tools.is_space (last_part [] (map to_slash filename))))

  unfoldable pub safe_filename : List ℕ → Action (List ℕ)
  unfolding normalize
  safe_filename filename = do
    let normalized = normalize filename
    raise_if (is_empty normalized || (is_dots normalized || ltb 255 (length normalized)))
        (validation "attachment filename is required and must be <= 255 printable characters")
    pure normalized
