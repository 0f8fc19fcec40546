-- ===== src/Text/Lines.antt =====
-- The lines of a text, and a line `key = value` whose two parts are plain words.
use babilonia.Prelude.{
  ◌≡◌, refl, ◌&&◌, true, false, some, [], ◌∷◌, ◌++◌, ◌==◌, arith, All, ℕ, Bool, not,
}
use babilonia.Text.{Text, trim, trim_start, trim_end, split_once, lines, is_whitespace}

-- Neither white space nor the sign that separates a key from its value.
unfoldable pub is_plain : ℕ → Bool
is_plain c = not (is_whitespace c) && not (c == b'=')

unfoldable pub ArePlain : Text → Type 0
unfolding is_plain
ArePlain = All (λ c. is_plain c ≡ true)

pub plain_no_space : (c : ℕ) → is_plain c ≡ true → is_whitespace c ≡ false
unfolding is_plain
plain_no_space c h = ground arith

apart : (c d : ℕ) → is_whitespace c ≡ false → is_whitespace d ≡ true → (c == d) ≡ false
apart c d h k = ground arith

plain_inside : (c : ℕ) → is_plain c ≡ true → ((c == b'\n') ≡ false) × ((c == b'\r') ≡ false)
unfolding is_plain is_whitespace
plain_inside c h =
    let no_space : is_whitespace c ≡ false = plain_no_space c h in
    (apart c b'\n' no_space refl, apart c b'\r' no_space refl)

module _ (rest : Text) where
  line_ends : (v : Text) → ArePlain v → lines (v ++ b'\n' ∷ rest) ≡ v ∷ lines rest
  unfolding lines ArePlain
  line_ends [] h = refl
  line_ends (c ∷ cs) h = ground (arith, line_ends cs h.1, plain_inside c h.0)

  spaced :
      (v : Text)
      → ArePlain v
      → lines (b' ' ∷ b'=' ∷ b' ' ∷ v ++ b'\n' ∷ rest) ≡ (b' ' ∷ b'=' ∷ b' ' ∷ v) ∷ lines rest
  unfolding lines
  spaced v h = rw (line_ends v h) refl

  -- A line `key = value` comes back.
  pub lines-line :
      (k v : Text)
      → ArePlain k
      → ArePlain v
      → lines (k ++ b' ' ∷ b'=' ∷ b' ' ∷ v ++ b'\n' ∷ rest)
        ≡ (k ++ b' ' ∷ b'=' ∷ b' ' ∷ v) ∷ lines rest
  unfolding lines ArePlain
  lines-line [] v h j = spaced v j
  lines-line (c ∷ cs) v h j = ground (arith, lines-line cs v h.1 j, plain_inside c h.0)

pub split_once-line :
    (k v : Text) → ArePlain k → split_once b'=' (k ++ b' ' ∷ b'=' ∷ v) ≡ some (k ++ b' ' ∷ [], v)
unfolding split_once ArePlain
split_once-line [] v h = refl
split_once-line (c ∷ cs) v h = ground (arith, split_once-line cs v h.1, h.0)

trim_end_plain : (v : Text) → ArePlain v → trim_end v ≡ v
unfolding trim_end ArePlain
trim_end_plain [] h = refl
trim_end_plain (c ∷ []) h = ground (arith, plain_no_space c h.0)
trim_end_plain (c ∷ d ∷ ds) h = rw (trim_end_plain (d ∷ ds) h.1) refl

trim_end_space : (v : Text) → ArePlain v → trim_end (v ++ b' ' ∷ []) ≡ v
unfolding trim_end ArePlain is_whitespace
trim_end_space [] h = refl
trim_end_space (c ∷ []) h = ground (arith, plain_no_space c h.0)
trim_end_space (c ∷ d ∷ ds) h = rw (trim_end_space (d ∷ ds) h.1) refl

pub trim_key : (k : Text) → ArePlain k → trim (k ++ b' ' ∷ []) ≡ k
unfolding trim trim_start ArePlain is_whitespace
trim_key [] h = refl
trim_key (c ∷ cs) h = rw (plain_no_space c h.0, trim_end_space (c ∷ cs) h) refl

pub trim_value : (v : Text) → ArePlain v → trim (b' ' ∷ v) ≡ v
unfolding trim trim_start ArePlain is_whitespace
trim_value [] h = refl
trim_value (c ∷ cs) h = rw (plain_no_space c h.0, trim_end_plain (c ∷ cs) h) refl

-- Whether a text is plain is decided by its characters.
unfoldable pub all_plain : Text → Bool
all_plain [] = true
all_plain (c ∷ cs) = is_plain c && all_plain cs

pub key_plain : (t : Text) → all_plain t ≡ true → ArePlain t
unfolding all_plain ArePlain
key_plain [] h = tt
key_plain (c ∷ cs) h = (ground arith, key_plain cs (ground arith))
