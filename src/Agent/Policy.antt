-- ===== src/Agent/Policy.antt =====
-- The two policies of src/agent.rs: how much to propose, and what to accept without asking.
use mathlib.Core.List.{Mem, mem-cons_self, mem-cons_of_mem}
use babilonia.Prelude.{
  ℕ, zero, suc, ◌-◌, ◌*◌, ◌/◌, ◌^◌, ◌<◌, ◌≤◌, ◌≡◌, refl, ap, sym, Bool, true, false, ◌&&◌, ◌||◌,
  Option, none, some, List, [], ◌∷◌, All, leb, ltb, ◌==◌, if◌then◌else◌, arith,
}
use babilonia.Agent.Config.{Config}

-- `iter().max()`.
abbrev or_max : ℕ → Option ℕ → ℕ
or_max v none = v
or_max v (some m) = if ltb m v then v else m

unfoldable pub max : List ℕ → Option ℕ
max [] = none
max (v ∷ vs) = some (or_max v (max vs))

-- `saturating_mul` of `u64`.
unfoldable pub saturating_mul : ℕ → ℕ → ℕ
saturating_mul a b = let p = a * b in if ltb p (2 ^ 64) then p else 2 ^ 64 - 1

unfoldable pub percent_of : Config → Option ℕ → Option ℕ
unfolding saturating_mul
percent_of config none = none
percent_of config (some largest) =
    let stake = saturating_mul largest config.stake_percent / 100 in
    if ltb 0 stake then some stake else none

-- `PercentOfLargest::stake_sats`, the default `ProposalPolicy`.
unfoldable pub stake_sats : List ℕ → Config → Option ℕ
unfolding percent_of max
stake_sats utxo_values config = percent_of config (max utxo_values)

pub data AcceptDecision : Type 0 where
  accept reject ask : AcceptDecision

-- `ConfigAccept::decide`, the default `AcceptPolicy`.
unfoldable pub decide : ℕ → Config → AcceptDecision
decide stake_sats config =
    if config.auto_accept
      && (config.auto_accept_cap_sats == 0 || leb stake_sats config.auto_accept_cap_sats)
    then accept
    else ask

weaker : (vs : List ℕ) (m n : ℕ) → m ≤ n → All (λ v. v ≤ m) vs → All (λ v. v ≤ n) vs
weaker [] m n h k = tt
weaker (v ∷ vs) m n h k = (omega (arith, k.0), weaker vs m n h k.1)

mul_mono : (v p q : ℕ) → p ≤ q → v * p ≤ v * q
mul_mono zero p q h = omega arith
mul_mono (suc v) p q h = omega (arith, mul_mono v p q h)

-- It is among these values, and none of them exceeds it.
pub record IsMax (vs : List ℕ) (m : ℕ) : Type 0 where
  pub among : Mem m vs
  pub none_above : All (λ v. v ≤ m) vs

keep-IsMax :
    (v m : ℕ) (vs : List ℕ) (b : Bool)
    → ltb m v ≡ b
    → IsMax vs m
    → IsMax (v ∷ vs) (if b then v else m)
keep-IsMax v m vs true h k = record {
  among = mem-cons_self;
  none_above = (omega arith, weaker vs m v (ground arith) k.none_above);
}
keep-IsMax v m vs false h k = record {
  among = mem-cons_of_mem v k.among;
  none_above = (ground arith, k.none_above);
}

max_lem : (v : ℕ) (vs : List ℕ) → (m : ℕ) × (max (v ∷ vs) ≡ some m) × IsMax (v ∷ vs) m
unfolding max
max_lem v [] = (v, refl, record { among = mem-cons_self; none_above = (omega arith, tt) })
max_lem v (w ∷ vs) =
    let (m, e, is_max) = max_lem w vs in
    (
      if ltb m v then v else m,
      ap (λ o. some (or_max v o)) e,
      keep-IsMax v m (w ∷ vs) (ltb m v) refl is_max,
    )

-- How the size of a proposal depends on the largest output.
pub data Sized (m : ℕ) (config : Config) : Option ℕ → Type 0 where
  declined : m * config.stake_percent < 100 → Sized m config none
  proposed :
      (s : ℕ)
      → 0 < s
      → s ≤ m
      → (m * config.stake_percent < 2 ^ 64 → s ≡ m * config.stake_percent / 100)
      → Sized m config (some s)

stake_of_max :
    (config : Config) (m s : ℕ)
    → config.stake_percent ≤ 100
    → percent_of config (some m) ≡ some s
    → (0 < s) × (s ≤ m) × (m * config.stake_percent < 2 ^ 64 → s ≡ m * config.stake_percent / 100)
unfolding percent_of saturating_mul
stake_of_max config m s h e =
    let bound : m * config.stake_percent ≤ m * 100 = mul_mono m config.stake_percent 100 h in
    (ground (arith, bound), ground (arith, bound), λ fits. ground (arith, bound, fits))

sized :
    (m : ℕ) (config : Config) (o : Option ℕ)
    → config.stake_percent ≤ 100
    → percent_of config (some m) ≡ o
    → Sized m config o
unfolding percent_of saturating_mul
sized m config none h e = declined (ground arith)
sized m config (some s) h e = let (p, q, r) = stake_of_max config m s h e in proposed s p q r

-- With a percentage of at most 100 and at least one output, the default policy sizes its proposal by
-- the largest output: a stake is positive, at most that output, and the percentage of it unless the
-- product overflows; it declines only if the percentage is less than one satoshi.
pub stake_sats_lem :
    (v : ℕ) (vs : List ℕ) (config : Config)
    → config.stake_percent ≤ 100
    → (m : ℕ) × IsMax (v ∷ vs) m × Sized m config (stake_sats (v ∷ vs) config)
unfolding stake_sats
stake_sats_lem v vs config h =
    let (m, e, is_max) = max_lem v vs in
    (m, is_max, sized m config (stake_sats (v ∷ vs) config) h (ap (percent_of config) (sym e)))
