-- ===== src/Bet/Safety/Output.antt =====
-- The script that both sides of `fund_pot` agree on is that of the party's key and the key of its peer,
-- which is then in the bet.
use babilonia.Prelude.{◌≡◌, ◌∙◌, refl, ap, some, ok, ok_or, bind-ok, ok-injective}
use babilonia.Bytes.{Bytes}
use babilonia.Action.{◌>>=◌}
use babilonia.Action.Returns.{Returns, Returns-pure, Returns-bind, Triple-Returns}
use babilonia.Action.Keeps.{
  Keeps, Triple, Triple-bind, Triple-bind-lift, Triple-Keeps, Triple-after, Triple-error,
  Keeps-gets, Keeps-lift, keeps_rules,
}
use babilonia.Bet.Library.{Library, Network}
use babilonia.Bet.State.{Bet, BetRole, AliceSecrets, BobSecrets, dealer, player}
use babilonia.Bet.Env.{Env, St, M, update}
use babilonia.Bet.Agreement.{u1_taproot}
use babilonia.Bet.Funding.{build_funding_psbt, fund_dealer, fund_player, fund_side}
use babilonia.Bet.Quiet.{IsStable, Keeps-call, Keeps-act, sent_quiet, quiet_rules}
use babilonia.Bet.Safety.{IsSafe, Opened, Opened-IsStable}
use babilonia.Setup.Refund.{taproot_of}

module _ (lib : Library) (env : Env lib) (dir : Bytes) where
  u1_taproot-script :
      (network : Network) (a b : lib.PublicKey) (u1 : Bytes × Bytes)
      → u1_taproot lib network a b ≡ ok u1
      → (key : lib.KeyAgg) × (lib.taproot_key a b ≡ ok (key, u1.0))
  unfolding u1_taproot
  u1_taproot-script network a b u1 h =
      let (key, is_key, rest) = bind-ok (lib.taproot_key a b) _ u1 h in
      let (addr, is_addr, same) =
        bind-ok (ok_or (lib.address_of_script key.1 network) _) _ u1 rest in
      (key.0, is_key ∙ ap (λ script. ok (key.0, script)) (ap (λ u. u.0) (ok-injective _ _ same)))

  -- The peer's key is in the bet.
  pub record HasPeer (role : BetRole lib) (peer : lib.PublicKey) (s : St lib env) : Type 0 where
    pub opened : Opened lib env dir role s
    pub known : s.bet.peer_key ≡ some peer

  HasPeer-IsStable :
      (role : BetRole lib) (peer : lib.PublicKey) → IsStable lib env (HasPeer role peer)
  HasPeer-IsStable role peer = record {
    after_call = λ s w h. record {
      opened = (Opened-IsStable lib env dir role).after_call s w h.opened;
      known = h.known;
    };
    after_effect = λ s e b q h. record {
      opened = (Opened-IsStable lib env dir role).after_effect s e b q h.opened;
      known = h.known;
    };
    after_update = λ s bet kept h. record {
      opened = (Opened-IsStable lib env dir role).after_update s bet kept h.opened;
      known = kept.peer ∙ h.known;
    };
  }

  -- What `fund_side` returns is the script of the party's key and that of the peer in the bet.
  abbrev pub OnScript : BetRole lib → Bytes × Bytes → St lib env → Type 0
  OnScript role agreed s =
      (peer : lib.PublicKey) × (key : lib.KeyAgg) × (taproot_of lib role peer ≡ ok (key, agreed.0))
      × HasPeer role peer s

  abbrev Log : BetRole lib → St lib env → Type 0
  Log role s = IsSafe lib role s.log

  module _ (role : BetRole lib) where
    -- A step before the peer's key is known.
    step :
        {A B : Type 0} {Q : B → St lib env → Type 0} {m : M lib env A} {f : A → M lib env B}
        → Keeps (Opened lib env dir role) m
        → ((a : A) → Triple (Opened lib env dir role) (f a) Q (Log role))
        → Triple (Opened lib env dir role) (m >>= f) Q (Log role)
    step k t = Triple-bind _ _ (Triple-Keeps (λ s h. h.log) k) t

    with_peer-Triple :
        (peer : lib.PublicKey) (f : Bet lib → Bet lib)
        → ((b : Bet lib) → (f b).state_dir ≡ b.state_dir)
        → ((b : Bet lib) → (f b).role ≡ b.role)
        → ((b : Bet lib) → (f b).peer_key ≡ some peer)
        → Triple (Opened lib env dir role) (update lib env f) (λ _. HasPeer role peer) (Log role)
    unfolding update
    with_peer-Triple peer f same_dir same_role same_peer = record {
      run = λ s h. record {
        opened = record {
          log = h.log;
          saves = same_dir s.bet ∙ h.saves;
          side = same_role s.bet ∙ h.side;
        };
        known = same_peer s.bet;
      };
    }

    -- The rest keeps the peer's key and returns the script.
    keeping_peer :
        {m : M lib env (Bytes × Bytes)} (peer : lib.PublicKey) (key : lib.KeyAgg) (script : Bytes)
        → taproot_of lib role peer ≡ ok (key, script)
        → Keeps (HasPeer role peer) m
        → Returns (λ agreed. script ≡ agreed.0) m
        → Triple (HasPeer role peer) m (OnScript role) (Log role)
    keeping_peer peer key script is_key k r =
        Triple-error
          (Triple-after (Triple-Returns k r)
            (λ agreed s h. (peer, key, is_key ∙ ap (λ q. ok (key, q)) h.1, h.0)))
          (λ s h. h.opened.log)

  abbrev opened : (role : BetRole lib) → IsStable lib env (Opened lib env dir role)
  opened role = Opened-IsStable lib env dir role

  fund_dealer-Triple :
      (s : AliceSecrets lib)
      → Triple
          (Opened lib env dir (dealer s))
          (fund_dealer lib env s)
          (OnScript (dealer s))
          (Log (dealer s))
  unfolding fund_dealer
  fund_dealer-Triple s = step (dealer s) (Keeps-gets _) (λ p.
      step (dealer s) (Keeps-gets _) (λ network.
        step (dealer s) (Keeps-call (opened (dealer s)) _) (λ mine.
          step (dealer s) (Keeps-call (opened (dealer s)) _) (λ payout.
            step (dealer s) (Keeps-act (opened (dealer s)) _ _ sent_quiet) (λ _.
              step (dealer s) (Keeps-call (opened (dealer s)) _) (λ frame.
                step (dealer s) (Keeps-lift _) (λ reply.
                  Triple-bind _ _
                    (with_peer-Triple (dealer s) (lib.of_point reply.p_b) _ (λ b. refl) (λ b. refl)
                      (λ b. refl))
                    (λ _.
                      Triple-bind-lift _ _ (λ st h. h.opened.log)
                        (λ u1 is_u1.
                          let (key, is_key) = u1_taproot-script network _ _ u1 is_u1 in
                          keeping_peer (dealer s) (lib.of_point reply.p_b) key u1.0 is_key
                            (search (keeps_rules, quiet_rules, HasPeer-IsStable) depth 20)
                            (Returns-bind _ _ (λ amounts. Returns-bind _ _ (λ _.
                              Returns-bind _ _
                                (λ _. Returns-bind _ _ (λ _. Returns-pure _ refl))))))))))))))

  fund_player-Triple :
      (s : BobSecrets lib)
      → Triple
          (Opened lib env dir (player s))
          (fund_player lib env s)
          (OnScript (player s))
          (Log (player s))
  unfolding fund_player build_funding_psbt
  fund_player-Triple s = step (player s) (Keeps-gets _) (λ p.
      step (player s) (Keeps-gets _) (λ network.
        step (player s) (Keeps-call (opened (player s)) _) (λ frame.
          step (player s) (Keeps-lift _) (λ opening.
            Triple-bind _ _
              (with_peer-Triple (player s) (lib.of_point opening.p_a) _ (λ b. refl) (λ b. refl)
                (λ b. refl))
              (λ _.
                Triple-bind-lift _ _ (λ st h. h.opened.log)
                  (λ u1 is_u1.
                    let (key, is_key) = u1_taproot-script network _ _ u1 is_u1 in
                    keeping_peer (player s) (lib.of_point opening.p_a) key u1.0 is_key
                      (search (keeps_rules, quiet_rules, HasPeer-IsStable) depth 40 fits 3000)
                      (Returns-bind _ _ (λ mine. Returns-bind _ _ (λ change.
                        Returns-bind _ _ (λ payout. Returns-bind _ _ (λ amounts.
                          Returns-bind _ _ (λ _. Returns-bind _ _ (λ psbt.
                            Returns-bind _ _
                              (λ _. Returns-bind _ _ (λ _. Returns-pure _ refl)))))))))))))))

  pub fund_side-Triple :
      (role : BetRole lib)
      → Triple (Opened lib env dir role) (fund_side lib env role) (OnScript role) (Log role)
  unfolding fund_side
  fund_side-Triple (dealer s) = fund_dealer-Triple s
  fund_side-Triple (player s) = fund_player-Triple s
