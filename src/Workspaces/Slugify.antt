-- ===== src/Workspaces/Slugify.antt =====
-- `slugify` of repositories/workspace_repo.py on the characters of a text. `str.lower`, which is a
-- table of Unicode, is a parameter.
use support_endpoint.Prelude.{
  ◌≡◌, refl, String, Bool, true, false, arith, if◌then◌else◌, ◌==◌, leb, not, ◌&&◌, ◌||◌,
  Bool-cases, inl, inr,
}
use Prim.Native.Char.{Char, code}
use Prim.Native.String.{[], ◌∷◌}

-- The class [a-z0-9].
abbrev is_slug_char : Char → Bool
is_slug_char c = leb 97 (code c) && leb (code c) 122 || leb 48 (code c) && leb (code c) 57

abbrev is_dash : Char → Bool
is_dash c = code c == 45

abbrev is_empty : String → Bool
is_empty [] = true
is_empty (c ∷ rest) = false

-- re.sub(r"[^a-z0-9]+", "-", text), after a character that is in a run or not.
sub_runs : Bool → String → String
sub_runs in_run [] = []
sub_runs in_run (c ∷ rest) =
    let after = sub_runs (not (is_slug_char c)) rest in
    if is_slug_char c then c ∷ after else if in_run then after else "-" ∷ after

-- The two halves of text.strip("-").
lstrip : String → String
lstrip [] = []
lstrip (c ∷ rest) = let after = lstrip rest in if is_dash c then after else c ∷ rest

rstrip : String → String
rstrip [] = []
rstrip (c ∷ rest) = let after = rstrip rest in if is_dash c && is_empty after then [] else c ∷ after

module _ (lower : String → String) where
  unfoldable pub slugify : String → String
  unfolding sub_runs lstrip rstrip
  slugify name =
      let slug = rstrip (lstrip (sub_runs false (lower name))) in
      if is_empty slug then "workspace" else slug

-- Whether a text, after a character of a word or at the start of a word, goes on as words of the
-- class joined by single dashes.
unfoldable pub is_words : Bool → String → Bool
is_words in_word [] = in_word
is_words in_word (c ∷ rest) =
    let next = is_words (is_slug_char c) rest in
    if is_slug_char c then next else in_word && is_dash c && next

-- No two dashes are adjacent, and there is no other character.
is_spaced : Bool → String → Bool
is_spaced in_word [] = true
is_spaced in_word (c ∷ rest) =
    let next = is_spaced (is_slug_char c) rest in
    if is_slug_char c then next else in_word && is_dash c && next

sub_runs-is_spaced :
    (in_run : Bool) (s : String) → is_spaced (not in_run) (sub_runs in_run s) ≡ true
unfolding is_spaced sub_runs
sub_runs-is_spaced in_run [] = refl
sub_runs-is_spaced in_run (c ∷ rest) =
    ground (arith, sub_runs-is_spaced (not (is_slug_char c)) rest)

lstrip-is_spaced :
    (in_word : Bool) (s : String) → is_spaced in_word s ≡ true → is_spaced false (lstrip s) ≡ true
unfolding is_spaced lstrip
lstrip-is_spaced in_word [] h = refl
lstrip-is_spaced in_word (c ∷ rest) h = ground (arith, h, lstrip-is_spaced (is_slug_char c) rest)

is_words_empty : (b : Bool) (s : String) → is_empty s ≡ true → is_words b s ≡ b
unfolding is_words
is_words_empty b [] h = refl
is_words_empty b (c ∷ rest) h = cc

rstrip-is_words :
    (in_word : Bool) (s : String)
    → is_spaced in_word s ≡ true
    → (is_empty (rstrip s) || is_words in_word (rstrip s)) ≡ true
unfolding is_spaced rstrip is_words
rstrip-is_words in_word [] h = refl
rstrip-is_words in_word (c ∷ rest) h = elim (Bool-cases (is_dash c && is_empty (rstrip rest))) [
  | inl e ↦ rw e refl
  | inr e ↦
      let ended = is_words_empty (is_slug_char c) (rstrip rest) in
      let later = rstrip-is_words (is_slug_char c) rest in rw e (ground (arith, e, h, ended, later))
]

-- The slug of every name is one or more words of a-z and 0-9 joined by single dashes, so it is not
-- empty and does not begin or end with a dash.
pub slugify-is_words :
    (lower : String → String) (name : String) → is_words false (slugify lower name) ≡ true
unfolding slugify is_words
slugify-is_words lower name =
    let slug = rstrip (lstrip (sub_runs false (lower name))) in
    let spaced =
      lstrip-is_spaced true (sub_runs false (lower name)) (sub_runs-is_spaced false (lower name)) in
    let words = rstrip-is_words false (lstrip (sub_runs false (lower name))) spaced in
    elim (Bool-cases (is_empty slug)) [
      | inl e ↦ rw e refl
      | inr e ↦ rw e (ground (arith, e, words))
    ]
