-- ===== src/Agent/Config/File.antt =====
-- The configuration file: what `save` writes, `load` reads.
use babilonia.Prelude.{
  ℕ, ◌<◌, ◌^◌, ◌≡◌, ◌∙◌, refl, ap, inr, none, some, [], ◌∷◌, arith, Bool, true, false,
}
use babilonia.Text.{Text, codes, ◌=ᵗ◌, trim, lines}
use babilonia.Text.Decimal.{
  to_decimal, digits, is_digit, AllDigits, digits-AllDigits, parse_uint-to_decimal,
}
use babilonia.Text.Lines.{
  all_plain, key_plain, is_plain, ArePlain, lines-line, split_once-line, trim_key, trim_value,
}
use babilonia.Text.{is_whitespace}
use babilonia.Bet.Library.{Network, Scheme, squaring, poseidon}
use babilonia.Agent.Config.{
  NetworkText, Config, default, setting_in, apply, load_pair, load_lines, load, entry, to_text,
  parse_bool, applied, show_bool, show_scheme,
}
use babilonia.Agent.Config.Laws.{IsSound}

digit_is_plain : (c : ℕ) → is_digit c ≡ true → is_plain c ≡ true
unfolding is_digit is_plain is_whitespace
digit_is_plain c h = ground arith

digits-ArePlain : (t : Text) → AllDigits t → ArePlain t
unfolding AllDigits ArePlain
digits-ArePlain [] h = tt
digits-ArePlain (c ∷ cs) h = (digit_is_plain c h.0, digits-ArePlain cs h.1)

pub to_decimal-ArePlain : (n : ℕ) → ArePlain (to_decimal n)
unfolding to_decimal
to_decimal-ArePlain n = digits-ArePlain (digits 20 n) (digits-AllDigits 20 n)

show_bool-ArePlain : (b : Bool) → ArePlain (show_bool b)
unfolding all_plain is_plain is_whitespace
show_bool-ArePlain true = key_plain _ refl
show_bool-ArePlain false = key_plain _ refl

scheme_plain : (s : Scheme) → ArePlain (show_scheme s)
unfolding all_plain is_plain is_whitespace
scheme_plain squaring = key_plain _ refl
scheme_plain poseidon = key_plain _ refl

module _ (names : NetworkText) where
  -- A line is one setting.
  load-entry :
      (c : Config) (k v rest : Text)
      → ArePlain k
      → ArePlain v
      → load_lines names c (lines (entry names k v rest))
        ≡ load_lines names (applied names c (apply names c k v)) (lines rest)
  unfolding load_lines
  load-entry c k v rest h j =
      ap (load_lines names c) (lines-line rest k v h j)
      ∙ ap (λ o. load_lines names (load_pair names c o) (lines rest))
          (split_once-line k (b' ' ∷ v) h)
      ∙ ap
          (λ t. load_lines names (applied names c (apply names c t (trim (b' ' ∷ v)))) (lines rest))
          (trim_key k h)
      ∙ ap (λ t. load_lines names (applied names c (apply names c k t)) (lines rest))
          (trim_value v j)

  module _ (c : Config) where
    set_network :
        (n : Network)
        → names.parse (names.show n) ≡ some n
        → apply names c (codes "network") (names.show n) ≡ inr (record c { network = n })
    unfolding apply setting_in ◌=ᵗ◌
    set_network n h = rw h refl

    set_stake :
        (n : ℕ)
        → n < 2 ^ 8
        → apply names c (codes "stake_percent") (to_decimal n)
          ≡ inr (record c { stake_percent = n })
    unfolding apply setting_in ◌=ᵗ◌
    set_stake n h = rw (parse_uint-to_decimal 8 n h (omega arith)) refl

    set_auto :
        (b : Bool)
        → apply names c (codes "auto_accept") (show_bool b) ≡ inr (record c { auto_accept = b })
    unfolding apply setting_in ◌=ᵗ◌ parse_bool
    set_auto true = refl
    set_auto false = refl

    set_cap :
        (n : ℕ)
        → n < 2 ^ 64
        → apply names c (codes "auto_accept_cap_sats") (to_decimal n)
          ≡ inr (record c { auto_accept_cap_sats = n })
    unfolding apply setting_in ◌=ᵗ◌
    set_cap n h = rw (parse_uint-to_decimal 64 n h h) refl

    set_fee :
        (n : ℕ)
        → n < 2 ^ 64
        → apply names c (codes "fee_sats") (to_decimal n) ≡ inr (record c { fee_sats = n })
    unfolding apply setting_in ◌=ᵗ◌
    set_fee n h = rw (parse_uint-to_decimal 64 n h h) refl

    set_timeout :
        (n : ℕ)
        → n < 2 ^ 16
        → apply names c (codes "alice_timeout") (to_decimal n)
          ≡ inr (record c { alice_timeout = n })
    unfolding apply setting_in ◌=ᵗ◌
    set_timeout n h = rw (parse_uint-to_decimal 16 n h (omega arith)) refl

    set_scheme :
        (s : Scheme)
        → s ≡ squaring
        → apply names c (codes "pi_a_scheme") (show_scheme s) ≡ inr (record c { pi_a_scheme = s })
    unfolding apply setting_in ◌=ᵗ◌
    set_scheme squaring h = refl
    set_scheme poseidon h = ground arith

  load-set :
      (c c' : Config) (k v rest : Text)
      → ArePlain k
      → ArePlain v
      → apply names c k v ≡ inr c'
      → load_lines names c (lines (entry names k v rest)) ≡ load_lines names c' (lines rest)
  load-set c c' k v rest h j e =
      load-entry c k v rest h j ∙ ap (λ r. load_lines names (applied names c r) (lines rest)) e

  -- A sound configuration that is written to its file is read back from it, but for the state
  -- directory, which is not in the file.
  pub load-to_text :
      (c : Config)
      → names.parse (names.show c.network) ≡ some c.network
      → ArePlain (names.show c.network)
      → IsSound c
      → load names (some (to_text names c)) ≡ record c { state_dir = none }
  unfolding load to_text load_lines lines all_plain is_plain is_whitespace default
  load-to_text c parsed plain h =
      load-set default _ (codes "network") _ _ (key_plain _ refl) plain
        (set_network default c.network parsed)
      ∙ load-set _ _ (codes "stake_percent") _ _ (key_plain _ refl)
          (to_decimal-ArePlain c.stake_percent) (set_stake _ c.stake_percent h.percent)
      ∙ load-set _ _ (codes "auto_accept") _ _ (key_plain _ refl) (show_bool-ArePlain c.auto_accept)
          (set_auto _ c.auto_accept)
      ∙ load-set _ _ (codes "auto_accept_cap_sats") _ _ (key_plain _ refl)
          (to_decimal-ArePlain c.auto_accept_cap_sats) (set_cap _ c.auto_accept_cap_sats h.cap)
      ∙ load-set _ _ (codes "fee_sats") _ _ (key_plain _ refl) (to_decimal-ArePlain c.fee_sats)
          (set_fee _ c.fee_sats h.fee)
      ∙ load-set _ _ (codes "alice_timeout") _ _ (key_plain _ refl)
          (to_decimal-ArePlain c.alice_timeout) (set_timeout _ c.alice_timeout h.timeout)
      ∙ load-set _ _ (codes "pi_a_scheme") _ [] (key_plain _ refl) (scheme_plain c.pi_a_scheme)
          (set_scheme _ c.pi_a_scheme h.scheme)
