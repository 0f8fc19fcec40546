-- ===== src/Setup/Refund.antt =====
-- The setup that the drivers of src/setup.rs return: its settlement and its refund spend the pot of
-- the parameters and nothing else, and the refund is signed.
use babilonia.Prelude.{arith, ◌≡◌, ◌∙◌, refl, sym, ap, subst, ℕ, [], ◌∷◌, Result, ok}
use babilonia.Bytes.{Bytes}
use babilonia.Tx.{OutPoint, Transaction, build_refund, build_settlement, spend_inputs}
use babilonia.Action.Returns.{Returns, Returns-pure, Returns-bind, Returns-bind-lift}
use babilonia.Bet.Library.{Library}
use babilonia.Bet.State.{BetRole, dealer, player, GameParams, SetupResult, AliceSecrets, BobSecrets}
use babilonia.Bet.Env.{Env}
use babilonia.Bet.Agreement.{spent}
use babilonia.Setup.Graph.{Graph, tx_graph, tx_out}
use babilonia.Setup.Drivers.{run_alice, run_bob}

module _ (lib : Library) where
  open lib use {wire, SecretKey, PublicKey, KeyAgg, LiftedSignature, Round1, Round2}
  open wire use {PubNonce, PartialSignature}

  -- An output, its value and its script, and the peer's key.
  pub record Pot : Type 0 where
    pub place : OutPoint
    pub value : ℕ
    pub script : Bytes
    pub peer : PublicKey

  -- The aggregate of the party's key and its peer's, the dealer's first, and its script.
  abbrev pub taproot_of : BetRole lib → PublicKey → Result (KeyAgg × Bytes)
  taproot_of (dealer s) peer = lib.taproot_key s.identity.pk peer
  taproot_of (player s) peer = lib.taproot_key peer s.funding.pk

  -- The party's secret key and its index as a signer.
  abbrev pub own_key : BetRole lib → SecretKey × ℕ
  own_key (dealer s) = (s.identity.sk, 0)
  own_key (player s) = (s.funding.sk, 1)

  abbrev pub peer_index : BetRole lib → ℕ
  peer_index (dealer s) = 1
  peer_index (player s) = 0

  -- The signature was finished in a session of the party with its peer, under this aggregate, over the
  -- spend of the pot by this transaction.
  pub record IsSignature (role : BetRole lib) (pot : Pot) (key : KeyAgg) (tx : Transaction)
      (sig : LiftedSignature) : Type 0 where
    pub sighash : Bytes
    pub seed : Bytes
    pub first : Round1 × PubNonce
    pub nonce : PubNonce
    pub second : Round2 × PartialSignature
    pub theirs : PartialSignature
    pub third : Round2
    pub over : lib.key_spend_sighash tx 0 (tx_out pot.value pot.script ∷ []) ≡ ok sighash
    pub starts : lib.first_round key (own_key role).1 (own_key role).0 seed ≡ ok first
    pub signs : lib.sign first.0 (peer_index role) nonce (own_key role).0 sighash ≡ ok second
    pub joins : lib.receive second.0 (peer_index role) theirs ≡ ok third
    pub ends : lib.finalize_plain third ≡ ok sig

  -- The settlement and the refund spend the pot alone, and the refund is signed.
  pub record IsSetup (role : BetRole lib) (pot : Pot) (s : SetupResult lib) : Type 0 where
    pub settles : spent s.settle_tx.input ≡ pot.place ∷ []
    pub refunds : spent s.refund_tx.input ≡ pot.place ∷ []
    pub of_keys : taproot_of role pot.peer ≡ ok (s.keyagg, pot.script)
    pub signed : IsSignature role pot s.keyagg s.refund_tx s.refund_sig

  -- The pot of these parameters, with some script.
  abbrev pub Finished : BetRole lib → GameParams → PublicKey → SetupResult lib → Type 0
  Finished role p peer s =
      (script : Bytes) × IsSetup role
        (record { place = p.u1_outpoint; value = p.u1_value; script = script; peer = peer }) s

  -- What the transactions of a graph spend, and the hash that is signed of its refund.
  record IsGraph (p : GameParams) (spk : Bytes) (g : Graph) : Type 0 where
    pub settles : spent g.settle_tx.input ≡ p.u1_outpoint ∷ []
    pub refunds : spent g.refund_tx.input ≡ p.u1_outpoint ∷ []
    pub over :
        lib.key_spend_sighash g.refund_tx 0 (tx_out p.u1_value spk ∷ []) ≡ ok g.refund_sighash

  tx_graph-IsGraph :
      (spk : Bytes) (p_a : PublicKey) (k : wire.Point) (p : GameParams) (shared : Bytes) (g : Graph)
      → tx_graph lib spk p_a k p shared ≡ ok g
      → IsGraph p spk g
  unfolding tx_graph build_refund build_settlement spend_inputs
  tx_graph-IsGraph spk p_a k p shared g h = record {
    settles = ground arith;
    refunds = ground arith;
    over = ground arith;
  }

  finished :
      (role : BetRole lib) (p : GameParams) (peer dealer_key : PublicKey) (k : wire.Point)
      (shared seed : Bytes) (u1 : KeyAgg × Bytes) (g : Graph) (first : Round1 × PubNonce)
      (nonce : PubNonce) (second : Round2 × PartialSignature) (theirs : PartialSignature)
      (third : Round2) (s : SetupResult lib)
      → taproot_of role peer ≡ ok u1
      → tx_graph lib u1.1 dealer_key k p shared ≡ ok g
      → lib.first_round u1.0 (own_key role).1 (own_key role).0 seed ≡ ok first
      → lib.sign first.0 (peer_index role) nonce (own_key role).0 g.refund_sighash ≡ ok second
      → lib.receive second.0 (peer_index role) theirs ≡ ok third
      → lib.finalize_plain third ≡ ok s.refund_sig
      → s.keyagg ≡ u1.0
      → s.settle_tx ≡ g.settle_tx
      → s.refund_tx ≡ g.refund_tx
      → Finished role p peer s
  finished role p peer dealer_key k shared seed u1 g first nonce second theirs third s is_key
        is_graph starts signs joins ends same_key same_settle same_refund =
      let graph = tx_graph-IsGraph u1.1 dealer_key k p shared g is_graph in
      let pot : Pot = record {
        place = p.u1_outpoint;
        value = p.u1_value;
        script = u1.1;
        peer = peer;
      } in
      let signature : IsSignature role pot u1.0 g.refund_tx s.refund_sig = record {
        sighash = g.refund_sighash;
        seed = seed;
        first = first;
        nonce = nonce;
        second = second;
        theirs = theirs;
        third = third;
        over = graph.over;
        starts = starts;
        signs = signs;
        joins = joins;
        ends = ends;
      } in
      (
        u1.1,
        record {
          settles = ap (λ t. spent t.input) same_settle ∙ graph.settles;
          refunds = ap (λ t. spent t.input) same_refund ∙ graph.refunds;
          of_keys = is_key ∙ ap (λ key. ok (key, u1.1)) (sym same_key);
          signed =
              subst (λ t. IsSignature role pot s.keyagg t s.refund_sig) (sym same_refund)
                (subst (λ a. IsSignature role pot a g.refund_tx s.refund_sig) (sym same_key)
                  signature);
        },
      )

  module _ (env : Env lib) where
    pub run_alice-Returns :
        (p : GameParams) (s : AliceSecrets lib) (k : PublicKey)
        → Returns (Finished (dealer s) p k) (run_alice lib env p s k)
    unfolding run_alice
    run_alice-Returns p s k = Returns-bind _ _ (λ _. Returns-bind _ _ (λ _. Returns-bind _ _ (λ _.
        Returns-bind _ _ (λ frame. Returns-bind _ _ (λ commit. Returns-bind _ _ (λ _.
          Returns-bind-lift _ _ (λ u1 is_key. Returns-bind-lift _ _ (λ graph is_graph.
            Returns-bind _ _ (λ seed. Returns-bind-lift _ _ (λ first starts. Returns-bind _ _ (λ _.
              Returns-bind _ _ (λ _. Returns-bind _ _ (λ _. Returns-bind _ _ (λ _.
                Returns-bind-lift _ _ (λ second signs. Returns-bind _ _ (λ _. Returns-bind _ _ (λ _.
                  Returns-bind _ _ (λ _. Returns-bind _ _ (λ _. Returns-bind _ _ (λ _.
                    Returns-bind _ _ (λ _. Returns-bind _ _ (λ auth.
                      Returns-bind-lift _ _ (λ third joins. Returns-bind _ _ (λ _.
                        Returns-bind-lift _ _ (λ sig ends. Returns-bind _ _ (λ _. Returns-pure _ (
                          finished (dealer s) p k s.identity.pk commit.k (lib.ecdh s.identity.sk k)
                            seed u1 graph first commit.refund_nonce second auth.refund_partial third
                            _ is_key is_graph starts signs joins ends refl refl
                            refl)))))))))))))))))))))))))))

    pub run_bob-Returns :
        (p : GameParams) (s : BobSecrets lib) (k : PublicKey)
        → Returns (Finished (player s) p k) (run_bob lib env p s k)
    unfolding run_bob
    run_bob-Returns p s k = Returns-bind _ _ (λ _. Returns-bind _ _ (λ opening.
        Returns-bind _ _ (λ _. Returns-bind _ _ (λ _. Returns-bind _ _ (λ key.
          Returns-bind _ _ (λ _. Returns-bind _ _ (λ _. Returns-bind-lift _ _ (λ u1 is_key.
            Returns-bind-lift _ _ (λ graph is_graph. Returns-bind _ _ (λ seed.
              Returns-bind-lift _ _ (λ first starts. Returns-bind _ _ (λ _. Returns-bind _ _ (λ _.
                Returns-bind _ _ (λ _. Returns-bind _ _ (λ _. Returns-bind _ _ (λ _.
                  Returns-bind _ _ (λ _. Returns-bind _ _ (λ reveal. Returns-bind _ _ (λ _.
                    Returns-bind _ _ (λ _. Returns-bind-lift _ _ (λ second signs.
                      Returns-bind _ _ (λ _. Returns-bind _ _ (λ _.
                        Returns-bind-lift _ _ (λ third joins. Returns-bind _ _ (λ _.
                          Returns-bind-lift _ _ (λ sig ends. Returns-bind _ _ (λ _. Returns-pure _ (
                            finished (player s) p k k key (lib.ecdh s.funding.sk k) seed u1 graph
                              first reveal.refund_nonce second reveal.refund_partial third _ is_key
                              is_graph starts signs joins ends refl refl
                              refl))))))))))))))))))))))))))))
