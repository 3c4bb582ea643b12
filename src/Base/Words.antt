-- ===== src/Base/Words.antt =====
-- What a stream of text gives: words that end at white space, lines that end at a delimiter.
use git_crypt.Base.{
  ℕ, ◌≡◌, refl, ◌∙◌, ◌≢◌, true, false, [], ◌∷◌, ◌++◌, Bytes, All, get_or, ◌==◌, ==_refl,
}
use git_crypt.Base.Streams.{get_line, isspace, skip_space, word, read_word}

-- No character of the word is white space, and it is not empty.
abbrev pub IsWord : Bytes → Type 0
IsWord s = (s ≢ []) × All (λ c. isspace c ≡ false) s

-- What stands before the delimiter is read, and what follows it is left.
pub get_line-append :
    (delim : ℕ) (s t : Bytes)
    → All (λ c. (c == delim) ≡ false) s
    → get_line delim (s ++ (delim ∷ t)) ≡ (s, t)
unfolding get_line
get_line-append delim [] t h = rw (==_refl delim) refl
get_line-append delim (c ∷ s) t (p, h) = rw (get_line-append delim s t h, p) refl

word-append :
    (s : Bytes) (c : ℕ) (t : Bytes)
    → All (λ d. isspace d ≡ false) s
    → isspace c ≡ true
    → word (s ++ (c ∷ t)) ≡ (s, c ∷ t)
unfolding word
word-append [] c t h space = rw space refl
word-append (d ∷ s) c t (p, h) space = rw (word-append s c t h space, p) refl

first_space : (sp : ℕ) (s : Bytes) → isspace sp ≡ true → read_word (sp ∷ s) ≡ read_word s
unfolding read_word skip_space
first_space sp s space = rw space refl

pub first_char_kept :
    (sp c : ℕ) (s : Bytes)
    → isspace sp ≡ true
    → isspace c ≡ false
    → skip_space (sp ∷ (c ∷ s)) ≡ c ∷ s
unfolding skip_space
first_char_kept sp c s space kept = rw (space, kept) refl

-- A word that is ended by white space is read whole.
pub read_word-append :
    (s : Bytes) (c : ℕ) (t : Bytes)
    → IsWord s
    → isspace c ≡ true
    → read_word (s ++ (c ∷ t)) ≡ (s, c ∷ t)
unfolding read_word
read_word-append [] c t (ne, h) space = absurd (ne refl)
read_word-append (d ∷ s) c t (ne, (p, h)) space =
    rw (read_word, skip_space, p) (unfold word in rw (word-append s c t h space, p) refl)

-- A file name of git: it holds no NUL and does not begin with white space.
pub record IsName (filename : Bytes) : Type 0 where
  pub no_nul : All (λ c. (c == 0) ≡ false) filename
  pub not_empty : filename ≢ []
  pub no_space : isspace (get_or filename 0 0) ≡ false

-- One character of white space before the word is passed over.
pub read_word-space :
    (sp : ℕ) (s : Bytes) (c : ℕ) (t : Bytes)
    → isspace sp ≡ true
    → IsWord s
    → isspace c ≡ true
    → read_word (sp ∷ (s ++ (c ∷ t))) ≡ (s, c ∷ t)
read_word-space sp s c t before w after =
    first_space sp (s ++ (c ∷ t)) before ∙ read_word-append s c t w after
