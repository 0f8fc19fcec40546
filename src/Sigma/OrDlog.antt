-- ===== src/Sigma/OrDlog.antt =====
-- The proof of one of many discrete logarithms over a common base in src/sigma.rs.
pub mod Complete
use babilonia.Prelude.{
  ℕ, zero, suc, ◌+◌, Bool, true, false, not, ◌&&◌, ◌||◌, ◌==◌, if◌then◌else◌, Option, none, some,
  List, [], ◌∷◌, ◌++◌, length, Result, ok, err, secp, ◌>>=◌,
}
use babilonia.Bytes.{Bytes}
use babilonia.Text.{codes}
use babilonia.Sigma.Curve.{Curve, challenge, commitment, unwrap}

unfoldable pub dom_ordlog : Bytes
dom_ordlog = codes "babilonia/sigma/or-dlog/v1"

module _ (curve : Curve) where
  open curve use {
    Scalar, MaybeScalar, Point, MaybePoint, of_scalar, not_zero, of_point, not_inf, add, neg, mul,
    times, maybe_eq,
  }

  pub record OrProof : Type 0 where
    pub e : List Scalar
    pub z : List Scalar

  -- A branch that was simulated.
  pub record Branch : Type 0 where
    pub e : Scalar
    pub z : Scalar
    pub commit : Point

  -- The real branch's commitment, between the simulated ones.
  pub record Split : Type 0 where
    pub before : List Branch
    pub commit : Point
    pub after : List Branch

  abbrev pub es : List Branch → List Scalar
  es [] = []
  es (b ∷ bs) = b.e ∷ es bs

  abbrev pub zs : List Branch → List Scalar
  zs [] = []
  zs (b ∷ bs) = b.z ∷ zs bs

  abbrev pub commits : List Branch → List Point
  commits [] = []
  commits (b ∷ bs) = b.commit ∷ commits bs

  -- `iter().sum()`.
  unfoldable pub sum : List Scalar → MaybeScalar
  sum [] = curve.zero
  sum (s ∷ ss) = add (of_scalar s) (sum ss)

  module _ (base : Point) where
    -- `e_i` and `z_i` of a prover, by the branch.
    module _ (draws : ℕ → Scalar × Scalar) where
      unfoldable pub simulate_one : ℕ → Point → Result Branch
      simulate_one i target = do
        commit ← unwrap (not_inf (commitment curve (draws i).1 (draws i).0 (of_point base) target))
        ok (record { e = (draws i).0; z = (draws i).1; commit = commit })

      -- The branches behind the real one.
      unfoldable pub simulate : ℕ → List Point → Result (List Branch)
      simulate i [] = ok []
      simulate i (t ∷ ts) = do
        branch ← simulate_one i t
        branches ← simulate (suc i) ts
        ok (branch ∷ branches)

      abbrev pub in_front : Branch → Split → Split
      in_front branch split = record split { before = branch ∷ split.before }

      -- The commitments of all branches, with the real one at this index; an index past the end
      -- panics.
      unfoldable pub commit_all : Scalar → ℕ → List Point → ℕ → Result Split
      commit_all rho i [] true_idx = err (secp "index out of bounds")
      commit_all rho i (t ∷ ts) zero = do
        real ← unwrap (not_inf (times (of_scalar rho) (of_point base)))
        branches ← simulate (suc i) ts
        ok (record { before = []; commit = real; after = branches })
      commit_all rho i (t ∷ ts) (suc true_idx) = do
        branch ← simulate_one i t
        split ← commit_all rho (suc i) ts true_idx
        ok (in_front branch split)

      abbrev pub all_commits : Split → List Point
      all_commits split = commits split.before ++ split.commit ∷ commits split.after

      abbrev pub others : Split → MaybeScalar
      others split = sum (es split.before ++ es split.after)

      abbrev pub proof_of : Split → Scalar → Scalar → OrProof
      proof_of split e z = record {
        e = es split.before ++ e ∷ es split.after;
        z = zs split.before ++ z ∷ zs split.after;
      }

      -- `prove_or_dlog`, with the nonce of the real branch.
      unfoldable pub prove_or_dlog : Scalar → List Point → Scalar → ℕ → Bytes → Result OrProof
      prove_or_dlog rho targets x true_idx ctx = do
        split ← commit_all rho 0 targets true_idx
        let chal = challenge curve dom_ordlog ctx (base ∷ targets ++ all_commits split)
        e ← unwrap (not_zero (add (of_scalar chal) (neg (others split))))
        z ← unwrap (not_zero (add (of_scalar rho) (mul (of_scalar e) (of_scalar x))))
        ok (proof_of split e z)

    abbrev pub with_commit : Option Point → Option (List Point) → Option (List Point)
    with_commit none rest = none
    with_commit (some p) none = none
    with_commit (some p) (some ps) = some (p ∷ ps)

    -- The commitments that a verifier recomputes, for lists of one length.
    unfoldable pub recommit : List Point → List Scalar → List Scalar → Option (List Point)
    recommit (t ∷ ts) (e ∷ es) (z ∷ zs) =
        with_commit (not_inf (commitment curve z e (of_point base) t)) (recommit ts es zs)
    recommit [] es zs = some []
    recommit (t ∷ ts) [] zs = none
    recommit (t ∷ ts) (e ∷ es) [] = none

    abbrev pub sums_up : List Point → List Scalar → Bytes → Option (List Point) → Bool
    sums_up targets es ctx none = false
    sums_up targets es ctx (some cs) =
        maybe_eq (sum es) (of_scalar (challenge curve dom_ordlog ctx (base ∷ targets ++ cs)))

    unfoldable pub verify_or_dlog : List Point → OrProof → Bytes → Bool
    verify_or_dlog targets proof ctx =
        if not (length proof.e == length targets)
          || not (length proof.z == length targets)
          || length targets == 0
        then false
        else sums_up targets proof.e ctx (recommit targets proof.e proof.z)
