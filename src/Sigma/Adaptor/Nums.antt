-- ===== src/Sigma/Adaptor/Nums.antt =====
-- The search for the Pedersen base in src/sigma.rs.
use babilonia.Prelude.{
  ℕ, zero, suc, ◌+◌, ◌<◌, ◌≡◌, ◌∙◌, inl, inr, refl, ap, sym, ◌^◌, none, some, Option-cases, arith,
}
use babilonia.Sigma.Curve.{Curve}
use babilonia.Sigma.Adaptor.{candidate, first_point, nums_h}

module _ (curve : Curve) where
  -- The first counter from this one on that gives a point.
  pub record IsFirst (from : ℕ) (p : curve.Point) : Type 0 where
    pub skipped : ℕ
    pub found : candidate curve (from + skipped) ≡ some p
    pub none_before : (i : ℕ) → i < skipped → candidate curve (from + i) ≡ none

  shift : (from k : ℕ) → suc from + k ≡ from + suc k
  shift from k = omega arith

  at_start : (from : ℕ) → from + 0 ≡ from
  at_start from = omega arith

  Found : ℕ → ℕ → Type 0
  Found left from = (p : curve.Point) × (first_point curve left from ≡ some p) × IsFirst from p

  none_first :
      (from : ℕ) (k : ℕ)
      → candidate curve from ≡ none
      → ((i : ℕ) → i < k → candidate curve (suc from + i) ≡ none)
      → (i : ℕ) → i < suc k
      → candidate curve (from + i) ≡ none
  none_first from k h g zero l = ap (candidate curve) (at_start from) ∙ h
  none_first from k h g (suc i) l = ap (candidate curve) (sym (shift from i)) ∙ g i (omega arith)

  go_on :
      (left from : ℕ) → candidate curve from ≡ none → Found left (suc from) → Found (suc left) from
  unfolding first_point Found
  go_on left from h (p, is_p, first) = (
    p,
    rw (first_point, h) is_p,
    record {
      skipped = suc first.skipped;
      found = ap (candidate curve) (sym (shift from first.skipped)) ∙ first.found;
      none_before = none_first from first.skipped h first.none_before;
    },
  )

  stop : (left from : ℕ) (p : curve.Point) → candidate curve from ≡ some p → Found (suc left) from
  unfolding first_point Found
  stop left from p h = (
    p,
    rw (first_point, h) refl,
    record {
      skipped = 0;
      found = ap (candidate curve) (at_start from) ∙ h;
      none_before = λ i l. ground arith;
    },
  )

  find_first :
      (left from ahead : ℕ) (q : curve.Point)
      → ahead < left
      → candidate curve (from + ahead) ≡ some q
      → Found left from
  find_first zero from ahead q h is_q = ground arith
  find_first (suc left) from zero q h is_q =
      stop left from q (ap (candidate curve) (sym (at_start from)) ∙ is_q)
  find_first (suc left) from (suc ahead) q h is_q = elim (Option-cases (candidate curve from)) [
    | inl e ↦ go_on left from e (
        find_first left (suc from) ahead q (omega arith)
          (ap (candidate curve) (shift from ahead) ∙ is_q))
    | inr (p, e) ↦ stop left from p e
  ]

  -- If any counter of `u32` gives a point, the search for the Pedersen base ends with the point of the
  -- first that does.
  pub nums_h_lem :
      (ctr : ℕ) (q : curve.Point)
      → ctr < 2 ^ 32
      → candidate curve ctr ≡ some q
      → (p : curve.Point) × (nums_h curve ≡ some p) × IsFirst 0 p
  unfolding nums_h Found
  nums_h_lem ctr q h is_q =
      let same : 0 + ctr ≡ ctr = omega arith in
      find_first (2 ^ 32) 0 ctr q h (ap (candidate curve) same ∙ is_q)
