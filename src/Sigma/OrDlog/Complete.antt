-- ===== src/Sigma/OrDlog/Complete.antt =====
-- An honest proof of one of many logarithms verifies.
use mathlib.Core.Option.{some-injective}
use babilonia.Prelude.{
  subst, bind-ok, ok-injective, ℕ, zero, suc, ◌≡◌, ◌∙◌, refl, sym, ap, true, false, some, List, [],
  ◌∷◌, ◌++◌, ◌==◌, ==_iff, length, get_elem?, arith, ok,
}
use babilonia.Bytes.{Bytes}
use babilonia.Sigma.Curve.{
  Curve, CurveLaws, challenge, commitment, commitment_of_answer, sub_add, unwrap-eq-some,
}
use babilonia.Sigma.OrDlog.{
  OrProof, Branch, Split, es, zs, commits, sum, simulate_one, simulate, in_front, commit_all,
  all_commits, others, proof_of, prove_or_dlog, recommit, verify_or_dlog, dom_ordlog,
}

==_refl : (n : ℕ) → (n == n) ≡ true
==_refl n = (==_iff n n).1 refl

module _ (curve : Curve) where
  open curve use {
    Scalar, MaybeScalar, Point, of_scalar, not_zero, of_point, not_inf, add, neg, mul, times,
    maybe_eq,
  }

  module _ (base : Point) (draws : ℕ → Scalar × Scalar) where
    -- A branch that was simulated is recomputed.
    one_back :
        (i : ℕ) (t : Point) (b : Branch curve)
        → simulate_one curve base draws i t ≡ ok b
        → not_inf (commitment curve b.z b.e (of_point base) t) ≡ some b.commit
    unfolding simulate_one
    one_back i t b h =
        let (commit, is_commit, made) = bind-ok _ _ b h in
        subst (λ c. not_inf (commitment curve c.z c.e (of_point base) t) ≡ some c.commit)
          (ok-injective _ _ made) (unwrap-eq-some _ commit is_commit)

    -- The verifier finds these commitments, from lists of the right length.
    record Back (ts : List Point) (e_s z_s : List Scalar) (cs : List Point) : Type 0 where
      again : recommit curve base ts e_s z_s ≡ some cs
      e_long : length e_s ≡ length ts
      z_long : length z_s ≡ length ts

    Back-nil : Back [] [] [] []
    unfolding recommit
    Back-nil = record { again = refl; e_long = refl; z_long = refl }

    Back-cons :
        (t : Point) (e z : Scalar) (c : Point) (ts : List Point) (e_s z_s : List Scalar)
        (cs : List Point)
        → not_inf (commitment curve z e (of_point base) t) ≡ some c
        → Back ts e_s z_s cs
        → Back (t ∷ ts) (e ∷ e_s) (z ∷ z_s) (c ∷ cs)
    unfolding recommit
    Back-cons t e z c ts e_s z_s cs h b = record {
      again = rw (h, b.again) refl;
      e_long = ap suc b.e_long;
      z_long = ap suc b.z_long;
    }

    BackOf : List Point → List (Branch curve) → Type 0
    BackOf ts bs = Back ts (es curve bs) (zs curve bs) (commits curve bs)

    simulate-BackOf :
        (i : ℕ) (ts : List Point) (bs : List (Branch curve))
        → simulate curve base draws i ts ≡ ok bs
        → BackOf ts bs
    unfolding simulate BackOf
    simulate-BackOf i [] bs h = subst (BackOf []) (ok-injective _ _ h) Back-nil
    simulate-BackOf i (t ∷ ts) bs h =
        let (b, is_b, h_1) = bind-ok _ _ bs h in
        let (rest, is_rest, h_2) =
          bind-ok (simulate curve base draws (suc i) ts) (λ r. ok (b ∷ r)) bs h_1 in
        subst (BackOf (t ∷ ts)) (ok-injective _ _ h_2) (
          Back-cons t b.e b.z b.commit ts _ _ _ (one_back i t b is_b)
            (simulate-BackOf (suc i) ts rest is_rest))

    -- Once the real branch has an answer that gives back its commitment, so do all.
    BackWith : List Point → Split curve → Point → Type 0
    BackWith ts split t =
        (e z : Scalar)
        → not_inf (commitment curve z e (of_point base) t) ≡ some split.commit
        → Back ts (es curve split.before ++ e ∷ es curve split.after)
            (zs curve split.before ++ z ∷ zs curve split.after) (all_commits curve base draws split)

    module _ (rho : Scalar) where
      Committed : List Point → Point → Split curve → Type 0
      Committed ts t split =
          BackWith ts split t
          × (not_inf (times (of_scalar rho) (of_point base)) ≡ some split.commit)

      here :
          (i : ℕ) (ts : List Point) (u t commit : Point) (branches : List (Branch curve))
          → u ≡ t
          → not_inf (times (of_scalar rho) (of_point base)) ≡ some commit
          → simulate curve base draws i ts ≡ ok branches
          → Committed (u ∷ ts) t (record { before = []; commit = commit; after = branches })
      unfolding Committed BackWith BackOf
      here i ts u t commit branches same is_commit h = (
        λ e z found.
            Back-cons u e z commit ts _ _ _
              (subst (λ v. not_inf (commitment curve z e (of_point base) v) ≡ some commit)
                (sym same) found)
              (simulate-BackOf i ts branches h),
        is_commit,
      )

      further :
          (i : ℕ) (ts : List Point) (u t : Point) (b : Branch curve) (split : Split curve)
          → simulate_one curve base draws i u ≡ ok b
          → Committed ts t split
          → Committed (u ∷ ts) t (in_front curve base draws b split)
      unfolding Committed BackWith
      further i ts u t b split is_b (back, is_commit) = (
        λ e z found. Back-cons u b.e b.z b.commit ts _ _ _ (one_back i u b is_b) (back e z found),
        is_commit,
      )

      commit_all-Committed :
          (i : ℕ) (ts : List Point) (idx : ℕ) (t : Point) (split : Split curve)
          → get_elem? ts idx ≡ some t
          → commit_all curve base draws rho i ts idx ≡ ok split
          → Committed ts t split
      unfolding commit_all
      commit_all-Committed i [] idx t split at h = ground arith
      commit_all-Committed i (u ∷ ts) zero t split at h =
          let (commit, is_commit, h_1) = bind-ok _ _ split h in
          let (branches, is_branches, h_2) =
            bind-ok (simulate curve base draws (suc i) ts)
              (λ bs. ok (record { before = []; commit = commit; after = bs })) split h_1 in
          subst (Committed (u ∷ ts) t) (ok-injective _ _ h_2) (
            here (suc i) ts u t commit branches (some-injective _ _ at)
              (unwrap-eq-some _ commit is_commit) is_branches)
      commit_all-Committed i (u ∷ ts) (suc idx) t split at h =
          let (b, is_b, h_1) = bind-ok _ _ split h in
          let (inner, is_inner, h_2) =
            bind-ok (commit_all curve base draws rho (suc i) ts idx)
              (λ r. ok (in_front curve base draws b r)) split h_1 in
          subst (Committed (u ∷ ts) t) (ok-injective _ _ h_2) (
            further i ts u t b inner is_b (commit_all-Committed (suc i) ts idx t inner at is_inner))

module _ (curve : Curve) (laws : CurveLaws curve) where
  open curve use {
    Scalar, MaybeScalar, Point, of_scalar, not_zero, of_point, not_inf, add, neg, mul, times,
    maybe_eq,
  }

  -- The real challenge may be summed last.
  sum-middle :
      (xs : List Scalar) (y : Scalar) (ys : List Scalar)
      → sum curve (xs ++ y ∷ ys) ≡ add (of_scalar y) (sum curve (xs ++ ys))
  unfolding sum
  sum-middle [] y ys = refl
  sum-middle (x ∷ xs) y ys =
      ap (add (of_scalar x)) (sum-middle xs y ys)
      ∙ sym (laws.add_assoc (of_scalar x) (of_scalar y) (sum curve (xs ++ ys)))
      ∙ ap (λ a. add a (sum curve (xs ++ ys))) (laws.add_comm (of_scalar x) (of_scalar y))
      ∙ laws.add_assoc (of_scalar y) (of_scalar x) (sum curve (xs ++ ys))

  is_empty_of :
      (n : ℕ) (ts : List Point) (t : Point) → get_elem? ts n ≡ some t → (length ts == 0) ≡ false
  is_empty_of n [] t h = ground arith
  is_empty_of n (u ∷ ts) t h = ground arith

  module _ (base : Point) (draws : ℕ → Scalar × Scalar) (rho x : Scalar) (targets : List Point)
      (ctx : Bytes) where
    chal_of : Split curve → Scalar
    chal_of split =
        challenge curve dom_ordlog ctx (base ∷ targets ++ all_commits curve base draws split)

    sums :
        (split : Split curve) (e : Scalar)
        → not_zero (add (of_scalar (chal_of split)) (neg (others curve base draws split))) ≡ some e
        → maybe_eq
            (sum curve (es curve split.before ++ e ∷ es curve split.after))
            (of_scalar (chal_of split))
          ≡ true
    sums split e is_e =
        rw
          (
            sum-middle (es curve split.before) e (es curve split.after),
            laws.of_scalar-not_zero _ e is_e,
            sub_add curve laws (of_scalar (chal_of split)) (others curve base draws split),
          )
          (laws.maybe_eq_refl (of_scalar (chal_of split)))

    accepted :
        (idx : ℕ) (t : Point) (split : Split curve) (e z : Scalar)
        → get_elem? targets idx ≡ some t
        → of_point t ≡ times (of_scalar x) (of_point base)
        → commit_all curve base draws rho 0 targets idx ≡ ok split
        → not_zero (add (of_scalar (chal_of split)) (neg (others curve base draws split))) ≡ some e
        → not_zero (add (of_scalar rho) (mul (of_scalar e) (of_scalar x))) ≡ some z
        → verify_or_dlog curve base targets (proof_of curve base draws split e z) ctx ≡ true
    unfolding verify_or_dlog Committed BackWith chal_of
    accepted idx t split e z at is_t is_split is_e is_z =
        let (back, is_commit) =
          commit_all-Committed curve base draws rho 0 targets idx t split at is_split in
        let found : not_inf (commitment curve z e (of_point base) t) ≡ some split.commit =
          ap not_inf (commitment_of_answer curve laws rho x e z (of_point base) t is_t is_z)
          ∙ is_commit in
        let all_back = back e z found in
        rw
          (
            all_back.e_long,
            all_back.z_long,
            is_empty_of idx targets t at,
            ==_refl (length targets),
            all_back.again,
          )
          (sums split e is_e)

    -- Over any curve and base: a proof of one of many logarithms verifies, if the one at the prover's
    -- index is the one that is known.
    pub verify_or_dlog-prove_or_dlog :
        (idx : ℕ) (t : Point) (proof : OrProof curve)
        → get_elem? targets idx ≡ some t
        → of_point t ≡ times (of_scalar x) (of_point base)
        → prove_or_dlog curve base draws rho targets x idx ctx ≡ ok proof
        → verify_or_dlog curve base targets proof ctx ≡ true
    unfolding prove_or_dlog chal_of
    verify_or_dlog-prove_or_dlog idx t proof at is_t h =
        let (split, is_split, h_1) = bind-ok _ _ proof h in
        let (e, is_e, h_2) = bind-ok _ _ proof h_1 in
        let (z, is_z, h_3) = bind-ok _ _ proof h_2 in
        subst (λ q. verify_or_dlog curve base targets q ctx ≡ true) (ok-injective _ _ h_3)
          (accepted idx t split e z at is_t is_split (unwrap-eq-some _ e is_e)
            (unwrap-eq-some _ z is_z))
