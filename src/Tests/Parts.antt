-- ===== src/Tests/Parts.antt =====
-- The amounts, the transactions, the messages and the sequence of a bet at concrete inputs.
use babilonia.Prelude.{
  ℕ, ◌≡◌, ◌≤◌, ◌<◌, ◌≢◌, ◌⊎◌, ◌+◌, ◌*◌, refl, arith, true, false, none, some, List, [], ◌∷◌, ◌++◌,
  ok, err, protocol, decode,
}
use mathlib.Core.List.{Perm}
use babilonia.Bytes.{to_le_bytes, from_le_bytes, to_from_le_bytes}
use babilonia.Tx.Split.{split_payment, split_payment_lem, split_payment_small, dust}
use babilonia.Tx.Shuffle.{shuffle_seeded, shuffle_seeded-perm}
use babilonia.Action
use babilonia.Game.{
  dealer_resolves, dealer_ends, player_resolves, player_ends, play_dealer, play_player, player_wins,
  dealer_wins, Outcome,
}
use babilonia.Game.Stops.{StopsAt, dealer_order, player_order, dealer_fails, player_fails}
use babilonia.Game.Verbs.{
  Verb, Script, mock, contains, opening, dealer_tail, player_tail, settle, observe, take, claim,
  dealer_success, player_success, dealer_take_needs, player_claim_needs, roles_keep_apart,
}
use babilonia.Terms.{ProposeTerms, encode_terms, decode_terms, decode_terms-encode_terms}
use babilonia.Messages.Sample.{sample_wire, zeros}
use babilonia.Messages.Wire.{put_fixed, put_lp}
use babilonia.Messages.Setup.{encode_alice_open, encode_bob_auth}
use babilonia.Messages.Frames.{
  alice_open, bob_auth, fund_sign, encode_frame, decode_frame, decode-encode, decode_trailing,
  decode_other_kind,
}
use babilonia.Bet.Amounts.{
  funding_amounts, check_park, settlement_rest, funding_amounts_conserve, check_park_sound,
  need_covers_floor,
}

funding_amounts_conserve_example : 6990 + 1000 + 10 ≡ 5000 + 3000
unfolding funding_amounts
funding_amounts_conserve_example = funding_amounts_conserve 5000 3000 2000 10 6990 1000 found
  where
    found : funding_amounts 5000 3000 2000 10 ≡ ok (6990, 1000)
    found = refl

check_park_sound_example :
    (c : ℕ) × (settlement_rest 6990 3000 10 ≡ some c)
    × (4 * 10 ≤ c)
    × (c ≢ 3000)
    × (c + 3000 + 10 ≡ 6990)
unfolding check_park
check_park_sound_example = check_park_sound 6990 1000 2000 10 (omega arith) refl

need_covers_floor_example : check_park 3050 1000 2000 10 ≡ ok tt
unfolding funding_amounts
need_covers_floor_example =
    need_covers_floor 1060 1000 2000 10 3050 1000 3000 (omega arith) (omega arith) refl
      (omega arith)

split_payment_lem_example :
    (pay : ℕ) × (change : ℕ) × (split_payment 990 ≡ ok (pay, change))
    × (pay + change ≡ 990)
    × (dust ≤ change)
    × (change < pay)
split_payment_lem_example = split_payment_lem 990 (omega arith)

split_payment_small_example :
    split_payment 989 ≡ err (protocol "claim too small to split into two non-dust outputs")
split_payment_small_example = split_payment_small 989 (omega arith)

shuffle_seeded-perm_example :
    Perm {A = ℕ} (shuffle_seeded (λ b. zeros 32) (1 ∷ 2 ∷ 3 ∷ []) (zeros 32)) (1 ∷ 2 ∷ 3 ∷ [])
shuffle_seeded-perm_example = shuffle_seeded-perm (λ b. zeros 32) (1 ∷ 2 ∷ 3 ∷ []) (zeros 32)

to_from_le_bytes_example : to_le_bytes 2 (from_le_bytes (1 ∷ 2 ∷ [])) ≡ 1 ∷ 2 ∷ []
to_from_le_bytes_example = to_from_le_bytes (1 ∷ 2 ∷ []) (omega arith, (omega arith, tt))

decode-encode_example :
    decode_frame sample_wire alice_open (
      encode_frame sample_wire alice_open (record { a1 = false; a2 = true; thimble_poks = 5 ∷ [] }))
    ≡ ok (record { a1 = false; a2 = true; thimble_poks = 5 ∷ [] })
unfolding encode_frame encode_alice_open put_fixed put_lp to_le_bytes
decode-encode_example =
    decode-encode sample_wire alice_open (record { a1 = false; a2 = true; thimble_poks = 5 ∷ [] })
      (omega arith) (omega arith)

decode_trailing_example :
    decode_frame sample_wire bob_auth (
      encode_frame sample_wire bob_auth (record { refund_partial = true; settle_partial = false })
      ++ 1 ∷ [])
    ≡ err (decode "trailing bytes")
unfolding encode_frame encode_bob_auth put_fixed
decode_trailing_example =
    decode_trailing sample_wire bob_auth (record { refund_partial = true; settle_partial = false })
      1 [] tt (omega arith)

decode_other_kind_example :
    decode_frame sample_wire fund_sign
      (encode_frame sample_wire bob_auth (record { refund_partial = true; settle_partial = false }))
    ≡ err (decode "unexpected message tag")
unfolding encode_frame encode_bob_auth put_fixed
decode_other_kind_example =
    decode_other_kind sample_wire bob_auth fund_sign
      (record { refund_partial = true; settle_partial = false }) (λ e. cc) (omega arith)

-- The overlay is declined, and everything succeeds.
abbrev script : Outcome → Script
script o = record {
  on_fund = ok tt;
  on_setup = ok tt;
  on_broadcast = ok tt;
  on_coop = ok none;
  on_settle = ok tt;
  on_observe = ok o;
  on_claim = ok tt;
  on_take = ok tt;
}

abbrev dealer_verbs : List Verb
dealer_verbs = opening ++ (settle ∷ observe ∷ take ∷ [])

abbrev player_verbs : List Verb
player_verbs = opening ++ (observe ∷ claim ∷ [])

dealer_success_example :
    (((script dealer_wins).on_coop ≡ ok (some dealer_wins)) × (dealer_verbs ≡ opening))
    ⊎ (((script dealer_wins).on_coop ≡ ok none)
        × ((script dealer_wins).on_observe ≡ ok dealer_wins)
        × (dealer_verbs ≡ opening ++ (settle ∷ observe ∷ dealer_tail dealer_wins)))
unfolding play_dealer dealer_resolves dealer_ends Action.◌>>=◌
dealer_success_example = dealer_success (script dealer_wins) dealer_wins dealer_verbs refl

player_success_example :
    (((script player_wins).on_coop ≡ ok (some player_wins)) × (player_verbs ≡ opening))
    ⊎ (((script player_wins).on_coop ≡ ok none)
        × ((script player_wins).on_observe ≡ ok player_wins)
        × (player_verbs ≡ opening ++ (observe ∷ player_tail player_wins)))
unfolding play_player player_resolves player_ends Action.◌>>=◌
player_success_example = player_success (script player_wins) player_wins player_verbs refl

dealer_take_needs_example :
    ((script dealer_wins).on_broadcast ≡ ok tt)
    × ((script dealer_wins).on_coop ≡ ok none)
    × ((script dealer_wins).on_settle ≡ ok tt)
    × ((script dealer_wins).on_observe ≡ ok dealer_wins)
unfolding play_dealer dealer_resolves dealer_ends Action.◌>>=◌
dealer_take_needs_example = dealer_take_needs (script dealer_wins) refl

player_claim_needs_example :
    ((script player_wins).on_broadcast ≡ ok tt)
    × ((script player_wins).on_coop ≡ ok none)
    × ((script player_wins).on_observe ≡ ok player_wins)
unfolding play_player player_resolves player_ends Action.◌>>=◌
player_claim_needs_example = player_claim_needs (script player_wins) refl

roles_keep_apart_example :
    (contains claim (play_dealer (mock (script player_wins)) []).1 ≡ false)
    × (contains settle (play_player (mock (script player_wins)) []).1 ≡ false)
    × (contains take (play_player (mock (script player_wins)) []).1 ≡ false)
roles_keep_apart_example = roles_keep_apart (script player_wins)

-- The settlement fails, or the claim.
abbrev stopped : Script
stopped = record (script player_wins) {
  on_settle = err (protocol "stopped");
  on_claim = err (protocol "stopped");
}

dealer_fails_example : StopsAt stopped (protocol "stopped") dealer_order (opening ++ (settle ∷ []))
unfolding play_dealer dealer_resolves dealer_ends Action.◌>>=◌
dealer_fails_example = dealer_fails stopped (protocol "stopped") (opening ++ (settle ∷ [])) refl

player_fails_example :
    StopsAt stopped (protocol "stopped") player_order (opening ++ (observe ∷ claim ∷ []))
unfolding play_player player_resolves player_ends Action.◌>>=◌
player_fails_example =
    player_fails stopped (protocol "stopped") (opening ++ (observe ∷ claim ∷ [])) refl

abbrev terms : ProposeTerms
terms = record {
  stake_sats = 100000;
  fee_sats = 500;
  refund_locktime = 900000;
  alice_timeout = 144;
  scheme = 0;
}

decode_terms-encode_terms_example : decode_terms (encode_terms terms) ≡ some terms
decode_terms-encode_terms_example =
    decode_terms-encode_terms terms (omega arith) (omega arith) (omega arith) (omega arith)
