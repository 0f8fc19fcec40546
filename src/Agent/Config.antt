-- ===== src/Agent/Config.antt =====
-- The configuration of a node, its text file and its settings (`Config` of src/agent.rs). How a
-- `bitcoin::Network` is written and read is the library's.
pub mod Laws
pub mod File
use babilonia.Prelude.{
  ℕ, Bool, true, false, ◌⊎◌, inl, inr, Option, none, some, List, [], ◌∷◌, ◌++◌, if◌then◌else◌,
}
use babilonia.Text.{Text, codes, ◌=ᵗ◌, trim, split_once, lines}
use babilonia.Text.Decimal.{to_decimal, parse_uint}
use babilonia.Bet.Library.{Network, regtest, Scheme, squaring, poseidon}

pub record NetworkText : Type 0 where
  pub show : Network → Text
  pub parse : Text → Option Network

pub record Config : Type 0 where
  pub network : Network
  pub stake_percent : ℕ
  pub auto_accept : Bool
  pub auto_accept_cap_sats : ℕ
  pub fee_sats : ℕ
  pub alice_timeout : ℕ
  pub pi_a_scheme : Scheme
  pub state_dir : Option Text

unfoldable pub default : Config
default = record {
  network = regtest;
  stake_percent = 50;
  auto_accept = false;
  auto_accept_cap_sats = 0;
  fee_sats = 2000;
  alice_timeout = 6;
  pi_a_scheme = squaring;
  state_dir = none;
}

-- `bool`'s `to_string` and `parse`.
abbrev pub show_bool : Bool → Text
show_bool true = codes "true"
show_bool false = codes "false"

unfoldable pub parse_bool : Text → Option Bool
parse_bool t =
    if t =ᵗ codes "true" then some true else if t =ᵗ codes "false" then some false else none

abbrev pub show_scheme : Scheme → Text
show_scheme poseidon = codes "poseidon"
show_scheme squaring = codes "squaring"

-- The settings that `apply` knows.
pub data Setting : Type 0 where
  network stake_percent auto_accept auto_accept_cap_sats fee_sats alice_timeout : Setting
  pi_a_scheme : Setting

abbrev pub key_of : Setting → Text
key_of Setting.network = codes "network"
key_of Setting.stake_percent = codes "stake_percent"
key_of Setting.auto_accept = codes "auto_accept"
key_of Setting.auto_accept_cap_sats = codes "auto_accept_cap_sats"
key_of Setting.fee_sats = codes "fee_sats"
key_of Setting.alice_timeout = codes "alice_timeout"
key_of Setting.pi_a_scheme = codes "pi_a_scheme"

-- `match key`.
unfoldable pub setting_in : List Setting → Text → Option Setting
setting_in [] key = none
setting_in (s ∷ ss) key = let rest = setting_in ss key in if key =ᵗ key_of s then some s else rest

abbrev pub all_settings : List Setting
all_settings =
    Setting.network ∷ Setting.stake_percent ∷ Setting.auto_accept ∷ Setting.auto_accept_cap_sats
    ∷ Setting.fee_sats ∷ Setting.alice_timeout ∷ Setting.pi_a_scheme ∷ []

unfoldable pub bad : Text → Text → Text
bad key value = codes "bad value for " ++ (key ++ (codes ": '" ++ (value ++ codes "'")))

unfoldable pub unknown_key : Text → Text
unknown_key key = codes "unknown config key '" ++ (key ++ codes "'")

unfoldable pub poseidon_refused : Text
poseidon_refused =
    codes "pi_a_scheme 'poseidon' is disabled pending a soundness fix; use 'squaring'"

-- A parsed value is stored; the configuration is left alone if there is none.
abbrev pub store : {A : Type 0} → Text → Option A → (A → Config) → Text ⊎ Config
store message none f = inl message
store message (some a) f = inr (f a)

unfoldable pub apply_scheme : Text → Config → Text → Text ⊎ Config
apply_scheme message c value =
    if value =ᵗ codes "squaring"
    then inr (record c { pi_a_scheme = squaring })
    else if value =ᵗ codes "poseidon"
    then inl poseidon_refused
    else inl message

module _ (names : NetworkText) where
  unfoldable pub apply_setting : Setting → Text → Config → Text → Text ⊎ Config
  unfolding apply_scheme
  apply_setting Setting.network message c value =
      store message (names.parse value) (λ n. record c { network = n })
  apply_setting Setting.stake_percent message c value =
      store message (parse_uint 8 value) (λ n. record c { stake_percent = n })
  apply_setting Setting.auto_accept message c value =
      store message (parse_bool value) (λ b. record c { auto_accept = b })
  apply_setting Setting.auto_accept_cap_sats message c value =
      store message (parse_uint 64 value) (λ n. record c { auto_accept_cap_sats = n })
  apply_setting Setting.fee_sats message c value =
      store message (parse_uint 64 value) (λ n. record c { fee_sats = n })
  apply_setting Setting.alice_timeout message c value =
      store message (parse_uint 16 value) (λ n. record c { alice_timeout = n })
  apply_setting Setting.pi_a_scheme message c value = apply_scheme message c value

  unfoldable pub apply_known : Option Setting → Config → Text → Text → Text ⊎ Config
  unfolding apply_setting
  apply_known none c key value = inl (unknown_key key)
  apply_known (some s) c key value = apply_setting s (bad key value) c value

  -- `Config::apply`: an error, or the new configuration.
  unfoldable pub apply : Config → Text → Text → Text ⊎ Config
  unfolding apply_known
  apply c key value = apply_known (setting_in all_settings key) c key value

  -- `let _ = c.apply(..)`.
  abbrev pub applied : Config → Text ⊎ Config → Config
  applied c (inl message) = c
  applied c (inr c') = c'

  abbrev pub load_pair : Config → Option (Text × Text) → Config
  load_pair c none = c
  load_pair c (some (k, v)) = applied c (apply c (trim k) (trim v))

  unfoldable pub load_lines : Config → List Text → Config
  load_lines c [] = c
  load_lines c (l ∷ ls) = load_lines (load_pair c (split_once b'=' l)) ls

  -- `Config::load`, of the file's text if it could be read.
  unfoldable pub load : Option Text → Config
  unfolding load_lines
  load none = default
  load (some text) = load_lines default (lines text)

  abbrev pub entry : Text → Text → Text → Text
  entry key value rest = (key ++ b' ' ∷ b'=' ∷ b' ' ∷ value) ++ b'\n' ∷ rest

  -- `Config::to_text`.
  unfoldable pub to_text : Config → Text
  to_text c = entry (codes "network") (names.show c.network) (
      entry (codes "stake_percent") (to_decimal c.stake_percent) (
        entry (codes "auto_accept") (show_bool c.auto_accept) (
          entry (codes "auto_accept_cap_sats") (to_decimal c.auto_accept_cap_sats) (
            entry (codes "fee_sats") (to_decimal c.fee_sats) (
              entry (codes "alice_timeout") (to_decimal c.alice_timeout)
                (entry (codes "pi_a_scheme") (show_scheme c.pi_a_scheme) []))))))
