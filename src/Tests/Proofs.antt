-- ===== src/Tests/Proofs.antt =====
-- The sigma proofs, the transport and the parser of commands at concrete inputs.
use babilonia.Prelude.{arith, ok, Bool, ◌≡◌, refl, true, false, some, List, [], ◌∷◌, ◌++◌}
use babilonia.Bytes.{Bytes}
use babilonia.Sigma.Curve.{commitment, challenge, unwrap}
use babilonia.Sigma.Dlog.{dlog_to_bytes, prove_dlog}
use babilonia.Sigma.Or2.{Draws, or2_to_bytes, prove_or2}
use babilonia.Sigma.Statements.{
  prove_thimble_poks, verify_thimble_poks, claim_statement, minus, prove_pi_r, verify_pi_r,
  verify_thimble_poks-prove_thimble_poks, verify_pi_r-prove_pi_r,
}
use babilonia.Sigma.Sound.{commitment-extracts}
use babilonia.Sigma.Sample.{sample_curve, sample_laws}
use babilonia.Sigma.OrDlog.{sum, prove_or_dlog, commit_all, simulate, simulate_one}
use babilonia.Sigma.Adaptor.{
  AdaptorProof, Nonces, candidate, nums_h, or_targets, pedersen_commit, prove_adaptor,
  verify_adaptor, adaptor_to_bytes, adaptor_from_bytes,
}
use babilonia.Sigma.Adaptor.Complete.{verify_adaptor-prove_adaptor}
use babilonia.Sigma.Adaptor.Frame.{adaptor_from_bytes-adaptor_to_bytes}
use babilonia.Sigma.Adaptor.Nums.{IsFirst, nums_h_lem}
use babilonia.Transport.{Side, alice, bob, channel_pair, Call, send, recv, try_recv, drop, answers}
use babilonia.Agent.Events.{Command}
use babilonia.Bet.Library.{squaring}
use babilonia.PiA.{
  Statement, proof_bytes, prove, verify, prove_squaring, prove_branch, targets,
  challenge as pi_a_challenge, or_fail, square,
}
use babilonia.PiA.Complete.{verify-prove}
use babilonia.PiA.Sample.{one, two, three, four, five, five_laws, five_products, five_product_laws}
use babilonia.Repl.{command, parse, accept_hint, reject_hint}
use babilonia.Repl.Hints.{parse-hints}
use babilonia.Transport.Contract.{fresh, promised}
use babilonia.Transport.Contract.Refines.{answers-promised}

abbrev thimble_proofs : Bytes
unfolding dlog_to_bytes
thimble_proofs =
    dlog_to_bytes sample_curve (record { e = false; s = true })
    ++ dlog_to_bytes sample_curve (record { e = false; s = false })

verify_thimble_poks-prove_thimble_poks_example :
    verify_thimble_poks sample_curve false true (7 ∷ []) thimble_proofs ≡ true
unfolding prove_thimble_poks prove_dlog dlog_to_bytes unwrap challenge
verify_thimble_poks-prove_thimble_poks_example =
    verify_thimble_poks-prove_thimble_poks sample_curve sample_laws false true false true (7 ∷ [])
      thimble_proofs refl

abbrev draws : Draws sample_curve
draws = record { e_o = true; s_o = false; k = true }

abbrev claim_proof : Bytes
unfolding or2_to_bytes
claim_proof =
    or2_to_bytes sample_curve (record { e_0 = true; e_1 = true; s_0 = false; s_1 = false })

verify_pi_r-prove_pi_r_example :
    verify_pi_r sample_curve true false false (7 ∷ []) claim_proof ≡ true
unfolding prove_pi_r prove_or2 claim_statement or2_to_bytes minus unwrap commitment challenge
verify_pi_r-prove_pi_r_example =
    verify_pi_r-prove_pi_r sample_curve sample_laws draws false false true false false (7 ∷ [])
      claim_proof refl refl

commitment-extracts_example :
    sample_curve.times
      (sample_curve.mul (some true) (sample_curve.add (some true) (sample_curve.neg (some false))))
      (some false)
    ≡ some true
unfolding commitment
commitment-extracts_example =
    commitment-extracts sample_curve sample_laws true false false true (some false) true (some true)
      refl refl

abbrev calls : List (Side × Call)
calls =
    (alice, send (1 ∷ []))
    ∷ (alice, send (2 ∷ []))
    ∷ (bob, recv)
    ∷ (alice, drop)
    ∷ (bob, try_recv)
    ∷ (bob, try_recv)
    ∷ (bob, send (3 ∷ []))
    ∷ []

answers-promised_example : answers calls channel_pair ≡ promised calls fresh
answers-promised_example = answers-promised calls

abbrev nonces : Nonces sample_curve false
nonces = record { k = false; draws = λ i. (true, false); rho = true }

abbrev adaptor_proof : AdaptorProof sample_curve
adaptor_proof = record {
  c_a = true;
  d_pok = record { e = false; s = true };
  adaptor_or = record { e = true ∷ true ∷ []; z = false ∷ false ∷ [] };
}

verify_adaptor-prove_adaptor_example :
    verify_adaptor sample_curve false adaptor_proof (false ∷ false ∷ []) false (7 ∷ []) ≡ true
unfolding prove_adaptor pedersen_commit prove_dlog or_targets minus prove_or_dlog commit_all
    simulate simulate_one unwrap commitment challenge sum
verify_adaptor-prove_adaptor_example =
    verify_adaptor-prove_adaptor sample_curve sample_laws false false false false 0
      (false ∷ false ∷ []) false (7 ∷ []) nonces false adaptor_proof refl refl refl refl

adaptor_from_bytes-adaptor_to_bytes_example :
    adaptor_from_bytes sample_curve (adaptor_to_bytes sample_curve adaptor_proof) ≡ ok adaptor_proof
adaptor_from_bytes-adaptor_to_bytes_example =
    adaptor_from_bytes-adaptor_to_bytes sample_curve adaptor_proof refl (omega arith)

nums_h_lem_example : (p : Bool) × (nums_h sample_curve ≡ some p) × IsFirst sample_curve 0 p
unfolding candidate
nums_h_lem_example = nums_h_lem sample_curve 5 false (omega arith) refl

parse-hints_example :
    (parse (accept_hint 7) ≡ command (Command.accept 7))
    × (parse (reject_hint 7) ≡ command (Command.reject 7))
parse-hints_example = parse-hints 7 (omega arith)

-- The dealer chose the second of the thimbles 1·G and 3·G, and his secret is 2.
abbrev encrypted : Statement five five_products
encrypted = record { ctxt = two; d_point = two; thimbles = (one, three); ctx = 7 ∷ [] }

verify-prove_example :
    verify five five_products squaring encrypted (proof_bytes five five_products two two four four)
    ≡ ok true
unfolding prove prove_squaring prove_branch targets pi_a_challenge or_fail square
verify-prove_example =
    verify-prove five five_products five_laws five_product_laws
      (record { e_j = two; z_j = two; r = one }) encrypted
      (record { t = two; choice = 1; a_c = three })
      (proof_bytes five five_products two two four four) refl refl refl refl
