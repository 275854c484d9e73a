-- ===== src/Consensus/Counting.antt =====
-- src/consensus/consensus.cpp: the round counts senders, each once, and a quorum is 2f + 1 of them.
use blockchain_demo.Prelude.{
  ℕ, ◌≡◌, refl, sym, subst, ap, ◌∙◌, true, false, not, ◌||◌, List, [], ◌∷◌, ◌++◌, Bytes, map, arith,
  length, length-append, leb, bytes_eq, bytes_eq_iff, bytes_eq_refl, if_cases,
}
use blockchain_demo.Block.{NodeSignature}
use blockchain_demo.Consensus.{ConsensusEngine, ConsensusRound, ConsensusMessage, new_round}
use blockchain_demo.Consensus.Sets.{
  member, insert, place, NoRepeat, member-place, length-place, place-NoRepeat,
}
use blockchain_demo.Consensus.Engine.{add_event, quorum}
use blockchain_demo.Consensus.Voting.{
  Handled, count_prepare, count_commit, fits_round, is_drop_prepare, is_drop_commit,
}

pub member-insert : (x : Bytes) (s : List Bytes) → member x (insert x s) ≡ true
unfolding insert
member-insert x s =
    if_cases (λ l. member x l ≡ true) (member x s) s (place x s) (λ h. h)
      (λ _. rw (member-place x x s, bytes_eq_refl x) refl)

abbrev pub signers : List NodeSignature → List Bytes
signers = map (λ (s : NodeSignature). s.node_id)

-- The counts of a round are the numbers of its senders, no sender stands twice, and the signatures
-- are one for each sender of a COMMIT.
pub record IsCounted (r : ConsensusRound) : Type 0 where
  pub prepares : r.prepare_count ≡ length r.prepare_senders
  pub prepare_once : NoRepeat r.prepare_senders
  pub commits : r.commit_count ≡ length r.commit_senders
  pub commit_once : NoRepeat r.commit_senders
  pub signed : (q : Bytes) → member q (signers r.commit_signatures) ≡ member q r.commit_senders
  pub sign_once : NoRepeat (signers r.commit_signatures)
  pub sign_count : length r.commit_signatures ≡ length r.commit_senders

member-append :
    (q : Bytes) (xs : List NodeSignature) (x : NodeSignature)
    → member q (signers (xs ++ (x ∷ []))) ≡ (bytes_eq q x.node_id || member q (signers xs))
unfolding member
member-append q [] x = refl
member-append q (y ∷ xs) x = ground (arith, member-append q xs x)

append-NoRepeat :
    (xs : List NodeSignature) (x : NodeSignature)
    → member x.node_id (signers xs) ≡ false
    → NoRepeat (signers xs)
    → NoRepeat (signers (xs ++ (x ∷ [])))
unfolding member NoRepeat
append-NoRepeat [] x h d = (refl, tt)
append-NoRepeat (y ∷ xs) x h d = ground (
  arith,
  append-NoRepeat xs x,
  member-append y.node_id xs x,
  bytes_eq_iff x.node_id y.node_id,
  bytes_eq_iff y.node_id x.node_id,
)

pub insert-new : (x : Bytes) (s : List Bytes) → member x s ≡ false → insert x s ≡ place x s
unfolding insert
insert-new x s h = rw h refl

pub insert-NoRepeat : (x : Bytes) (s : List Bytes) → NoRepeat s → NoRepeat (insert x s)
unfolding insert
insert-NoRepeat x s d =
    if_cases NoRepeat (member x s) s (place x s) (λ _. d) (λ h. place-NoRepeat x s h d)

prepare_more :
    (r : ConsensusRound) (x : Bytes)
    → member x r.prepare_senders ≡ false
    → IsCounted r
    → IsCounted (record r {
      prepare_senders = insert x r.prepare_senders;
      prepare_count = length (insert x r.prepare_senders);
    })
prepare_more r x h c = record {
  prepares = refl;
  prepare_once = insert-NoRepeat x r.prepare_senders c.prepare_once;
  commits = c.commits;
  commit_once = c.commit_once;
  signed = c.signed;
  sign_once = c.sign_once;
  sign_count = c.sign_count;
}

pub commit_more :
    (r : ConsensusRound) (sig : NodeSignature)
    → member sig.node_id r.commit_senders ≡ false
    → IsCounted r
    → IsCounted (record r {
      commit_senders = insert sig.node_id r.commit_senders;
      commit_count = length (insert sig.node_id r.commit_senders);
      commit_signatures = r.commit_signatures ++ (sig ∷ []);
    })
commit_more r sig h c = record {
  prepares = c.prepares;
  prepare_once = c.prepare_once;
  commits = refl;
  commit_once = insert-NoRepeat sig.node_id r.commit_senders c.commit_once;
  signed = λ q.
      rw
        (
          insert-new sig.node_id r.commit_senders h,
          member-append q r.commit_signatures sig,
          member-place q sig.node_id r.commit_senders,
          c.signed q,
        )
        refl;
  sign_once = append-NoRepeat r.commit_signatures sig (c.signed sig.node_id ∙ h) c.sign_once;
  sign_count = rw (insert-new sig.node_id r.commit_senders h) (
      omega (
        arith,
        length-append r.commit_signatures (sig ∷ []),
        length-place sig.node_id r.commit_senders,
        c.sign_count,
      ));
}

pub new_round-IsCounted : (now : ℕ) → IsCounted (new_round now)
unfolding new_round NoRepeat
new_round-IsCounted now = record {
  prepares = refl;
  prepare_once = tt;
  commits = refl;
  commit_once = tt;
  signed = λ q. refl;
  sign_once = tt;
  sign_count = refl;
}

-- The counts do not depend on the phase, the place or the time of the round.
pub moved-IsCounted :
    (r s : ConsensusRound)
    → s.prepare_count ≡ r.prepare_count
    → s.commit_count ≡ r.commit_count
    → s.prepare_senders ≡ r.prepare_senders
    → s.commit_senders ≡ r.commit_senders
    → s.commit_signatures ≡ r.commit_signatures
    → IsCounted r
    → IsCounted s
moved-IsCounted r s p q ps cs ss c = record {
  prepares = p ∙ (c.prepares ∙ ap length (sym ps));
  prepare_once = subst NoRepeat (sym ps) c.prepare_once;
  commits = q ∙ (c.commits ∙ ap length (sym cs));
  commit_once = subst NoRepeat (sym cs) c.commit_once;
  signed = λ x. ap (λ l. member x (signers l)) ss ∙ (c.signed x ∙ ap (member x) (sym cs));
  sign_once = subst (λ l. NoRepeat (signers l)) (sym ss) c.sign_once;
  sign_count = ap length ss ∙ (c.sign_count ∙ ap length (sym cs));
}

module _ {D : Type 0} where
  pub count_prepare-IsCounted :
      (now : ℕ) (msg : ConsensusMessage) (e : ConsensusEngine D)
      → IsCounted e.current_round
      → IsCounted (count_prepare now msg e).engine.current_round
  unfolding count_prepare add_event
  count_prepare-IsCounted now msg e c =
      let P : Handled D → Type 0 = λ h. IsCounted h.engine.current_round in
      if_cases P (is_drop_prepare e.attack_mode) _ _ (λ _. c)
        (λ _.
          if_cases P (not (fits_round msg e.current_round)) _ _ (λ _. c)
            (λ _.
              if_cases P (member msg.sender_id e.current_round.prepare_senders) _ _ (λ _. c)
                (λ h.
                  if_cases P
                    (leb (quorum e) (length (insert msg.sender_id e.current_round.prepare_senders)))
                    _ _
                    (λ _.
                      moved-IsCounted _ _ refl refl refl refl refl
                        (prepare_more e.current_round msg.sender_id h c))
                    (λ _. prepare_more e.current_round msg.sender_id h c))))

  pub count_commit-IsCounted :
      (now : ℕ) (msg : ConsensusMessage) (sigs : List NodeSignature) (e : ConsensusEngine D)
      → IsCounted e.current_round
      → IsCounted (count_commit now msg sigs e).engine.current_round
  unfolding count_commit add_event
  count_commit-IsCounted now msg sigs e c =
      let P : Handled D → Type 0 = λ h. IsCounted h.engine.current_round in
      let sig : NodeSignature = record {
        node_id = msg.sender_id;
        public_key_hex = [];
        signature_hex = msg.signature_hex;
      } in
      if_cases P (is_drop_commit e.attack_mode) _ _ (λ _. c)
        (λ _.
          if_cases P (not (fits_round msg e.current_round)) _ _ (λ _. c)
            (λ _.
              if_cases P (member msg.sender_id e.current_round.commit_senders) _ _ (λ _. c)
                (λ h.
                  if_cases P
                    (leb (quorum e) (length (insert msg.sender_id e.current_round.commit_senders)))
                    _ _
                    (λ _.
                      moved-IsCounted _ _ refl refl refl refl refl
                        (commit_more e.current_round sig h c))
                    (λ _. commit_more e.current_round sig h c))))
