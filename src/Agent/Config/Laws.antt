-- ===== src/Agent/Config/Laws.antt =====
-- What settings and the configuration file can do to a configuration.
use babilonia.Prelude.{
  ℕ, ◌<◌, ◌^◌, ◌≡◌, refl, ◌⊎◌, inl, inr, Option, none, some, List, [], ◌∷◌, arith, Bool, true,
  false, if◌then◌else◌,
}
use babilonia.Text.{Text, codes, ◌=ᵗ◌, trim, split_once, lines}
use babilonia.Text.Decimal.{parse_uint}
use babilonia.Bet.Library.{squaring}
use babilonia.Agent.Config.{
  NetworkText, Config, default, Setting, setting_in, all_settings, apply_scheme, store,
  apply_setting, apply_known, apply, applied, load_pair, load_lines, load, parse_bool,
}

-- Within the widths of its fields, and with a scheme that may be played.
pub record IsSound (c : Config) : Type 0 where
  pub percent : c.stake_percent < 2 ^ 8
  pub cap : c.auto_accept_cap_sats < 2 ^ 64
  pub fee : c.fee_sats < 2 ^ 64
  pub timeout : c.alice_timeout < 2 ^ 16
  pub scheme : c.pi_a_scheme ≡ squaring

abbrev pub AfterSetting : Text ⊎ Config → Type 0
AfterSetting (inl message) = Unit {0}
AfterSetting (inr c) = IsSound c

pub default-IsSound : IsSound default
unfolding default
default-IsSound = record {
  percent = omega arith;
  cap = omega arith;
  fee = omega arith;
  timeout = omega arith;
  scheme = refl;
}

parse_uint_fits : (width : ℕ) (t : Text) (n : ℕ) → parse_uint width t ≡ some n → n < 2 ^ width
unfolding parse_uint
parse_uint_fits width t n h = ground arith

module _ (names : NetworkText) where
  stored :
      {A : Type 0} (message : Text) (o : Option A) (f : A → Config)
      → ((a : A) → o ≡ some a → IsSound (f a))
      → AfterSetting (store message o f)
  stored message none f h = tt
  stored message (some a) f h = h a refl

  either :
      (b : Bool) (x y : Text ⊎ Config)
      → AfterSetting x
      → AfterSetting y
      → AfterSetting (if b then x else y)
  either true x y h k = h
  either false x y h k = k

  apply_scheme-AfterSetting :
      (message : Text) (c : Config) (value : Text)
      → IsSound c
      → AfterSetting (apply_scheme message c value)
  unfolding apply_scheme
  apply_scheme-AfterSetting message c value h =
      either (value =ᵗ codes "squaring") (inr (record c { pi_a_scheme = squaring })) _
        (record {
          percent = h.percent;
          cap = h.cap;
          fee = h.fee;
          timeout = h.timeout;
          scheme = refl;
        })
        (either (value =ᵗ codes "poseidon") _ _ tt tt)

  apply_setting-AfterSetting :
      (s : Setting) (message : Text) (c : Config) (value : Text)
      → IsSound c
      → AfterSetting (apply_setting names s message c value)
  unfolding apply_setting
  apply_setting-AfterSetting Setting.network message c value h =
      stored message (names.parse value) _ (λ n e. record {
        percent = h.percent;
        cap = h.cap;
        fee = h.fee;
        timeout = h.timeout;
        scheme = h.scheme;
      })
  apply_setting-AfterSetting Setting.stake_percent message c value h =
      stored message (parse_uint 8 value) _ (λ n e. record {
        percent = parse_uint_fits 8 value n e;
        cap = h.cap;
        fee = h.fee;
        timeout = h.timeout;
        scheme = h.scheme;
      })
  apply_setting-AfterSetting Setting.auto_accept message c value h =
      stored message (parse_bool value) _ (λ n e. record {
        percent = h.percent;
        cap = h.cap;
        fee = h.fee;
        timeout = h.timeout;
        scheme = h.scheme;
      })
  apply_setting-AfterSetting Setting.auto_accept_cap_sats message c value h =
      stored message (parse_uint 64 value) _ (λ n e. record {
        percent = h.percent;
        cap = parse_uint_fits 64 value n e;
        fee = h.fee;
        timeout = h.timeout;
        scheme = h.scheme;
      })
  apply_setting-AfterSetting Setting.fee_sats message c value h =
      stored message (parse_uint 64 value) _ (λ n e. record {
        percent = h.percent;
        cap = h.cap;
        fee = parse_uint_fits 64 value n e;
        timeout = h.timeout;
        scheme = h.scheme;
      })
  apply_setting-AfterSetting Setting.alice_timeout message c value h =
      stored message (parse_uint 16 value) _ (λ n e. record {
        percent = h.percent;
        cap = h.cap;
        fee = h.fee;
        timeout = parse_uint_fits 16 value n e;
        scheme = h.scheme;
      })
  apply_setting-AfterSetting Setting.pi_a_scheme message c value h =
      apply_scheme-AfterSetting message c value h

  apply_known-AfterSetting :
      (o : Option Setting) (c : Config) (key value : Text)
      → IsSound c
      → AfterSetting (apply_known names o c key value)
  unfolding apply_known
  apply_known-AfterSetting none c key value h = tt
  apply_known-AfterSetting (some s) c key value h = apply_setting-AfterSetting s _ c value h

  -- A setting, whatever its key and value, leaves a sound configuration sound: the numbers stay
  -- within their widths, and the disabled scheme cannot be chosen.
  pub apply-AfterSetting :
      (c : Config) (key value : Text) → IsSound c → AfterSetting (apply names c key value)
  unfolding apply
  apply-AfterSetting c key value h =
      apply_known-AfterSetting (setting_in all_settings key) c key value h

  applied-IsSound :
      (c : Config) (r : Text ⊎ Config) → IsSound c → AfterSetting r → IsSound (applied names c r)
  applied-IsSound c (inl message) h k = h
  applied-IsSound c (inr c') h k = k

  load_pair-IsSound :
      (c : Config) (o : Option (Text × Text)) → IsSound c → IsSound (load_pair names c o)
  load_pair-IsSound c none h = h
  load_pair-IsSound c (some (k, v)) h =
      applied-IsSound c _ h (apply-AfterSetting c (trim k) (trim v) h)

  load_lines-IsSound : (ls : List Text) (c : Config) → IsSound c → IsSound (load_lines names c ls)
  unfolding load_lines
  load_lines-IsSound [] c h = h
  load_lines-IsSound (l ∷ ls) c h =
      load_lines-IsSound ls _ (load_pair-IsSound c (split_once b'=' l) h)

  -- Whatever the file holds, the configuration that is loaded from it has numbers within their
  -- widths and the scheme that may be played.
  pub load-IsSound : (file : Option Text) → IsSound (load names file)
  unfolding load
  load-IsSound none = default-IsSound
  load-IsSound (some text) = load_lines-IsSound (lines text) default default-IsSound
