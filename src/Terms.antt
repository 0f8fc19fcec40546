-- ===== src/Terms.antt =====
-- The proposal of a bet in src/agent.rs, `ProposeTerms`.
use babilonia.Prelude.{
  ℕ, ◌<◌, ◌^◌, ◌≡◌, refl, Bool, Option, some, none, not, ◌||◌, [], ◌∷◌, ◌++◌, ◌==◌, if◌then◌else◌,
  length, take, drop,
}
use babilonia.Bytes.{
  Bytes, to_le_bytes, from_le_bytes, from_to_le_bytes_2, from_to_le_bytes_4, from_to_le_bytes_8,
}
use babilonia.Bet.Library.{Scheme, squaring, poseidon}

pub record ProposeTerms : Type 0 where
  pub stake_sats : ℕ
  pub fee_sats : ℕ
  pub refund_locktime : ℕ
  pub alice_timeout : ℕ
  pub scheme : ℕ

-- `ProposeTerms::encode`.
unfoldable pub encode_terms : ProposeTerms → Bytes
encode_terms t =
    1 ∷ to_le_bytes 8 t.stake_sats
    ++ (to_le_bytes 8 t.fee_sats
        ++ (to_le_bytes 4 t.refund_locktime ++ (to_le_bytes 2 t.alice_timeout ++ t.scheme ∷ [])))

-- `b[i]` of a slice whose length was checked.
abbrev first_of : Bytes → ℕ
first_of [] = 0
first_of (b ∷ bs) = b

-- `b[i..i + n]`.
abbrev part : ℕ → ℕ → Bytes → Bytes
part i n b = take n (drop i b)

-- `ProposeTerms::decode`.
unfoldable pub decode_terms : Bytes → Option ProposeTerms
decode_terms b =
    if not (length b == 24) || not (first_of b == 1)
    then none
    else some (record {
      stake_sats = from_le_bytes (part 1 8 b);
      fee_sats = from_le_bytes (part 9 8 b);
      refund_locktime = from_le_bytes (part 17 4 b);
      alice_timeout = from_le_bytes (part 21 2 b);
      scheme = first_of (drop 23 b);
    })

-- `ProposeTerms::scheme` and `ProposeTerms::scheme_supported`.
unfoldable pub scheme_of : ProposeTerms → Scheme
scheme_of t = if t.scheme == 1 then poseidon else squaring

unfoldable pub scheme_supported : ProposeTerms → Bool
scheme_supported t = t.scheme == 0

-- Terms within the widths of their fields are decoded from their own frame.
pub decode_terms-encode_terms :
    (t : ProposeTerms)
    → t.stake_sats < 2 ^ 64
    → t.fee_sats < 2 ^ 64
    → t.refund_locktime < 2 ^ 32
    → t.alice_timeout < 2 ^ 16
    → decode_terms (encode_terms t) ≡ some t
unfolding encode_terms decode_terms to_le_bytes
decode_terms-encode_terms t stake fee locktime timeout =
    rw
      (
        from_to_le_bytes_8 t.stake_sats stake,
        from_to_le_bytes_8 t.fee_sats fee,
        from_to_le_bytes_4 t.refund_locktime locktime,
        from_to_le_bytes_2 t.alice_timeout timeout,
      )
      refl
