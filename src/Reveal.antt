-- ===== src/Reveal.antt =====
-- src/reveal.rs: the reveal of the outcome, and the player's claim key.
use babilonia.Prelude.{
  ◌≡◌, Error, Bool, true, Option, some, none, Result, ok, protocol, ok_or, ◌>>=◌,
}
use babilonia.Bytes.{Bytes}
use babilonia.Bet.Library.{Library, Scheme}

ok_or-eq-ok : {A : Type 0} {a : A} (e : Error) (o : Option A) → ok_or o e ≡ ok a → o ≡ some a
ok_or-eq-ok e none h = cc
ok_or-eq-ok e (some a) h = cc

module _ (lib : Library) where
  open lib use {wire, base_mul, add, add_points, neg, pad, point_eq}
  open wire use {Point, Scalar}

  unfoldable pub won : Scalar → Point → Bool
  won a_revealed a_guessed_point = point_eq (base_mul a_revealed) a_guessed_point

  unfoldable pub compute_k : Point → Point → Result Point
  compute_k w_b_point a_guessed_point =
      ok_or (add_points w_b_point a_guessed_point) (protocol "W_b + A_y is the identity")

  unfoldable pub claim_secret : Scalar → Scalar → Result Scalar
  claim_secret w_b a_win = ok_or (add w_b a_win) (protocol "w_b + a_win is zero")

  unfoldable pub recover_a_c : Scheme → Scalar → Scalar → Result Scalar
  recover_a_c scheme ctxt d =
      ok_or (add ctxt (neg (pad scheme d))) (protocol "recovered a_c is zero")

  -- `d` out of the completed signature of the settlement, and the scalar that it decrypts.
  unfoldable pub extract_a_c :
      Error → Scheme → lib.AdaptorSignature → lib.wire.Scalar → Bytes → Result lib.wire.Scalar
  extract_a_c missing scheme settle_pre ctxt sig = do
    final_sig ← lib.parse_signature sig
    d ← ok_or (lib.extract settle_pre final_sig) missing
    recover_a_c scheme ctxt d

  -- What is used of the group: the points multiply out, a term cancels, and `==` is equality.
  pub record GroupLaws : Type 0 where
    pub add_homomorphic :
        (a b s : Scalar)
        → add a b ≡ some s
        → add_points (base_mul a) (base_mul b) ≡ some (base_mul s)
    pub add_cancel : (a b s : Scalar) → add a b ≡ some s → add s (neg b) ≡ some a
    pub point_eq_refl : (p : Point) → point_eq p p ≡ true

  -- Over a group with these laws: if the dealer's choice `a_c` was encrypted as `ctxt = a_c + H(d)`,
  -- and the player's claim secret `w_b + a_c` is not zero, then the player who knows `d` decrypts
  -- `a_c`, sees that he won if he guessed its point, and his secret is the discrete logarithm of the
  -- claim key `K = W_b + A_y`.
  pub winner_opens_claim :
      GroupLaws
      → (scheme : Scheme) (a_c d w_b ctxt s : Scalar) → add a_c (pad scheme d) ≡ some ctxt
      → claim_secret w_b a_c ≡ ok s
      → (recover_a_c scheme ctxt d ≡ ok a_c)
        × (won a_c (base_mul a_c) ≡ true)
        × (compute_k (base_mul w_b) (base_mul a_c) ≡ ok (base_mul s))
  unfolding won compute_k claim_secret recover_a_c
  winner_opens_claim g scheme a_c d w_b ctxt s encrypted secret = (
    rw (g.add_cancel a_c (pad scheme d) ctxt encrypted),
    g.point_eq_refl (base_mul a_c),
    rw (
        g.add_homomorphic w_b a_c s
          (ok_or-eq-ok (protocol "w_b + a_win is zero") (add w_b a_c) secret)),
  )
