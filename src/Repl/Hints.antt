-- ===== src/Repl/Hints.antt =====
-- What the user is told to type does what it says.
use babilonia.Prelude.{ℕ, ◌<◌, ◌^◌, ◌≡◌, ◌∙◌, refl, ap, true, false, some, [], ◌∷◌, ◌++◌, arith}
use babilonia.Text.{Text, codes, ◌=ᵗ◌, is_whitespace, split_whitespace}
use babilonia.Text.Decimal.{
  to_decimal, parse_uint, parse_uint-to_decimal, is_nil, to_decimal-is_nil,
}
use babilonia.Text.Lines.{is_plain, ArePlain, all_plain, key_plain, plain_no_space}
use babilonia.Agent.Config.File.{to_decimal-ArePlain}
use babilonia.Agent.Events.{Command}
use babilonia.Repl.{command, parse, accept_hint, reject_hint}

-- A word by itself, and one before a space.
word_alone : (v : Text) → is_nil v ≡ false → ArePlain v → split_whitespace v ≡ v ∷ []
unfolding split_whitespace ArePlain
word_alone [] n h = ground arith
word_alone (c ∷ []) n h = ground (arith, plain_no_space c h.0)
word_alone (c ∷ d ∷ ds) n h =
    ground (arith, plain_no_space c h.0, plain_no_space d h.1.0, word_alone (d ∷ ds) refl h.1)

space : is_whitespace b' ' ≡ true
unfolding is_whitespace
space = refl

word_first :
    (v rest : Text)
    → is_nil v ≡ false
    → ArePlain v
    → split_whitespace (v ++ b' ' ∷ rest) ≡ v ∷ split_whitespace rest
unfolding split_whitespace ArePlain
word_first [] rest n h = ground arith
word_first (c ∷ []) rest n h = ground (arith, plain_no_space c h.0, space)
word_first (c ∷ d ∷ ds) rest n h =
    ground (arith, plain_no_space c h.0, plain_no_space d h.1.0, word_first (d ∷ ds) rest refl h.1)

two_words :
    (v w : Text)
    → is_nil v ≡ false
    → is_nil w ≡ false
    → ArePlain v
    → ArePlain w
    → split_whitespace (v ++ b' ' ∷ w) ≡ v ∷ w ∷ []
two_words v w n m h k = word_first v w n h ∙ ap (λ ws. v ∷ ws) (word_alone w m k)

-- The two lines that a proposed bet tells the user to type are parsed as the acceptance and as the
-- rejection of that very bet, for every id of 64 bits.
pub parse-hints :
    (id : ℕ)
    → id < 2 ^ 64
    → (parse (accept_hint id) ≡ command (Command.accept id))
      × (parse (reject_hint id) ≡ command (Command.reject id))
unfolding parse accept_hint reject_hint ◌=ᵗ◌ all_plain is_plain is_whitespace
parse-hints id h =
    let word : ArePlain (to_decimal id) = to_decimal-ArePlain id in
    let number : parse_uint 64 (to_decimal id) ≡ some id = parse_uint-to_decimal 64 id h h in
    (
      rw
          (
            two_words (codes "accept") (to_decimal id) refl (to_decimal-is_nil id)
                (key_plain _ refl) word,
            number,
          )
          refl,
      rw
          (
            two_words (codes "reject") (to_decimal id) refl (to_decimal-is_nil id)
                (key_plain _ refl) word,
            number,
          )
          refl,
    )
