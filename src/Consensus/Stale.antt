-- ===== src/Consensus/Stale.antt =====
-- src/consensus/consensus.cpp: what `OnPrePrepare` leaves of the round before.
use blockchain_demo.Prelude.{
  ℕ, ◌*◌, ◌≤◌, ◌≡◌, refl, sym, ap, ◌∙◌, Bool, true, false, not, List, Option, some, Bytes, codes,
  subst, bytes_eq, bytes_eq_iff, length, leb, arith, if_cases, option_cases, Always, of_Always,
  if◌then◌else◌,
}
use blockchain_demo.Block.{Block, NodeSignature}
use blockchain_demo.Encoding.Parse.{stoull}
use blockchain_demo.Storage.{Sqlite, get_metadata}
use blockchain_demo.HashTable.{get, put}
use blockchain_demo.HashTable.Hashing.{Key}
use blockchain_demo.HashTable.Refinement.{Models}
use blockchain_demo.Consensus.{
  ConsensusEngine, ConsensusMessage, ConsensusRound, NodeConfig, Evidence,
}
use blockchain_demo.Consensus.Recording.{SameRound, record_vote-SameRound}
use blockchain_demo.Consensus.VoteLog.{Logs, store_vote-IsLogged}
use blockchain_demo.Consensus.Sets.{member, insert, length-place}
use blockchain_demo.Consensus.Engine.{add_event, primary, quorum, vote_key}
use blockchain_demo.Consensus.Voting.{
  Handled, Recorded, count_commit, fits_round, is_drop_commit, record_vote, store_vote, vote_table,
}
use blockchain_demo.Consensus.Messages.{enter_round, on_pre_prepare, on_commit}
use blockchain_demo.Consensus.Counting.{insert-new}

module _ {D : Type 0} where
  -- The round is that of the message, with the votes of the round before.
  pub record IsEntered (msg : ConsensusMessage) (e e' : ConsensusEngine D) : Type 0 where
    pub height : e'.current_round.height ≡ msg.height
    pub view : e'.current_round.view ≡ msg.view
    pub block_hash : e'.current_round.block_hash ≡ msg.block_hash
    pub prepare_senders : e'.current_round.prepare_senders ≡ e.current_round.prepare_senders
    pub commit_senders : e'.current_round.commit_senders ≡ e.current_round.commit_senders
    pub commit_signatures : e'.current_round.commit_signatures ≡ e.current_round.commit_signatures
    pub committed : e'.current_round.committed ≡ e.current_round.committed
    pub prepare_votes : e'.prepare_votes ≡ e.prepare_votes
    pub commit_votes : e'.commit_votes ≡ e.commit_votes
    pub config : e'.config ≡ e.config
    pub mode : e'.attack_mode ≡ e.attack_mode

module _ {D : Type 0} ⦃sqlite : Sqlite D⦄ where
  enter_round-IsEntered :
      (now : ℕ) (msg : ConsensusMessage) (block : Block) (e : ConsensusEngine D)
      → IsEntered msg e (enter_round now msg block e).0
  unfolding enter_round add_event
  enter_round-IsEntered now msg block e =
      option_cases (λ (o : ConsensusEngine D × Block). IsEntered msg e o.0) msg.block _ _
        (λ _. record {
          height = refl;
          view = refl;
          block_hash = refl;
          prepare_senders = refl;
          commit_senders = refl;
          commit_signatures = refl;
          committed = refl;
          prepare_votes = refl;
          commit_votes = refl;
          config = refl;
          mode = refl;
        })
        (λ b _. record {
          height = refl;
          view = refl;
          block_hash = refl;
          prepare_senders = refl;
          commit_senders = refl;
          commit_signatures = refl;
          committed = refl;
          prepare_votes = refl;
          commit_votes = refl;
          config = refl;
          mode = refl;
        })

  -- Where `OnPrePrepare` accepts a proposal, the round takes its height, view and block, and keeps
  -- the senders, the signatures and the committed flag of the round before.
  pub on_pre_prepare-IsEntered :
      (now : ℕ) (msg : ConsensusMessage) (old block : Block) (e e' : ConsensusEngine D)
      → on_pre_prepare now msg old e ≡ some (e', block, true)
      → IsEntered msg e e'
  unfolding on_pre_prepare
  on_pre_prepare-IsEntered now msg old block e e' eq =
      let P : ConsensusEngine D × Block × Bool → Type 0 = λ o. o.2 ≡ true → IsEntered msg e o.0 in
      of_Always P _ (e', block, true)
        (if_cases (Always P) (not (bytes_eq msg.sender_id (primary e msg.view msg.instance_id))) _ _
          (λ _ q. cc)
          (λ _.
            option_cases (Always P) e.storage _ _ (λ _. tt)
              (λ db _.
                option_cases (Always P)
                  (stoull (get_metadata db (codes "latest_height") (codes "0"))) _ _ (λ _. tt)
                  (λ latest _.
                    if_cases (Always P) (leb msg.height latest) _ _ (λ _ q. cc)
                      (λ _ q. enter_round-IsEntered now msg old e)))))
        eq refl

fits_if_equal :
    (vote : ConsensusMessage) (r : ConsensusRound)
    → vote.height ≡ r.height
    → vote.view ≡ r.view
    → vote.block_hash ≡ r.block_hash
    → fits_round vote r ≡ true
unfolding fits_round
fits_if_equal vote r h v b = ground (arith, bytes_eq_iff vote.block_hash r.block_hash)

clash : {b : Bool} → b ≡ true → b ≡ false → ⊥
clash t f = cc

le→leb : (a b : ℕ) → a ≤ b → leb a b ≡ true
le→leb a b h = ground arith

module _ {D : Type 0} where
  counts_at_once :
      (now : ℕ) (vote : ConsensusMessage) (sigs : List NodeSignature) (e : ConsensusEngine D)
      → is_drop_commit e.attack_mode ≡ false
      → fits_round vote e.current_round ≡ true
      → member vote.sender_id e.current_round.commit_senders ≡ false
      → 2 * e.config.f ≤ length e.current_round.commit_senders
      → (count_commit now vote sigs e).quorum_reached ≡ true
  unfolding count_commit
  counts_at_once now vote sigs e mode fits fresh many =
      let enough : leb (quorum e) (length (insert vote.sender_id e.current_round.commit_senders))
          ≡ true =
        unfold quorum in
        rw (insert-new vote.sender_id e.current_round.commit_senders fresh) (
          le→leb _ _
            (omega (arith, length-place vote.sender_id e.current_round.commit_senders, many))) in
      let P : Handled D → Type 0 = λ h. h.quorum_reached ≡ true in
      if_cases P (is_drop_commit e.attack_mode) _ _ (λ t. absurd (clash t mode))
        (λ _.
          if_cases P (not (fits_round vote e.current_round)) _ _
            (λ t. absurd (clash t (ap not fits)))
            (λ _.
              if_cases P (member vote.sender_id e.current_round.commit_senders) _ _
                (λ t. absurd (clash t fresh))
                (λ _.
                  if_cases P
                    (leb (quorum e) (length (insert vote.sender_id e.current_round.commit_senders)))
                    _ _ (λ _. refl) (λ t. absurd (clash enough t)))))

module _ {D : Type 0} ⦃key : Key Bytes⦄ where
  store_vote-recorded :
      (now : ℕ) (vote : ConsensusMessage) (e : ConsensusEngine D)
      → Always (λ (r : Recorded D). r.recorded ≡ true) (store_vote now vote e)
  unfolding store_vote
  store_vote-recorded now vote e =
      option_cases (Always (λ (r : Recorded D). r.recorded ≡ true))
        (put (vote_table vote e) (vote_key vote) vote.block_hash) _ _ (λ _. tt) (λ t _. refl)

  -- No vote of the sender for another block is known under the key of this one.
  abbrev pub Agrees : ConsensusMessage → ConsensusEngine D → Type 0
  Agrees vote e =
      (known : Bytes)
      → get (vote_table vote e) (vote_key vote) ≡ some known
      → known ≡ vote.block_hash

  record_vote-store_vote :
      (dump : Evidence → Bytes) (now : ℕ) (vote : ConsensusMessage) (e : ConsensusEngine D)
      → Agrees vote e
      → record_vote dump now vote e ≡ store_vote now vote e
  unfolding record_vote
  record_vote-store_vote dump now vote e agrees =
      let P : Option (Recorded D) → Type 0 = λ o. o ≡ store_vote now vote e in
      option_cases P (get (vote_table vote e) (vote_key vote)) _ _ (λ _. refl)
        (λ known found.
          if_cases P (bytes_eq known vote.block_hash) _ _ (λ _. refl)
            (λ other.
              absurd (clash ((bytes_eq_iff known vote.block_hash).1 (agrees known found)) other)))

module _ {D : Type 0} ⦃sqlite : Sqlite D⦄ ⦃key : Key Bytes⦄ where
  on_commit-count_commit :
      (dump : Evidence → Bytes) (now : ℕ) (vote : ConsensusMessage) (sigs : List NodeSignature)
      (e : ConsensusEngine D) (r : Recorded D)
      → record_vote dump now vote e ≡ some r
      → r.recorded ≡ true
      → on_commit dump now vote sigs e ≡ some (count_commit now vote sigs r.engine)
  unfolding on_commit
  on_commit-count_commit dump now vote sigs e r recorded yes' = rw (recorded, on_commit, yes') refl

  -- After `OnPrePrepare` has accepted a proposal, `OnCommit` returns on one COMMIT for its height, view
  -- and block and reports a quorum, if 2f nodes had committed to the block of the round before, the
  -- sender is not one of them and has no other vote recorded under the key of this one, the tables of
  -- votes are sound, and commits are not being dropped.
  pub on_pre_prepare-stale_quorum :
      (dump : Evidence → Bytes) (now later : ℕ) (msg vote : ConsensusMessage) (old block : Block)
      (sigs : List NodeSignature) (e e' : ConsensusEngine D) (p c : Bytes → Option Bytes)
      → on_pre_prepare now msg old e ≡ some (e', block, true)
      → vote.height ≡ msg.height
      → vote.view ≡ msg.view
      → vote.block_hash ≡ msg.block_hash
      → is_drop_commit e.attack_mode ≡ false
      → member vote.sender_id e.current_round.commit_senders ≡ false
      → 2 * e.config.f ≤ length e.current_round.commit_senders
      → Logs e p c
      → Agrees vote e
      → (h : Handled D) × (on_commit dump later vote sigs e' ≡ some h) × (h.quorum_reached ≡ true)
  unfolding vote_table
  on_pre_prepare-stale_quorum dump now later msg vote old block sigs e e' p c eq h v b mode fresh
        many logs agrees =
      let n = on_pre_prepare-IsEntered now msg old block e e' eq in
      let logs' : Logs e' p c = record {
        prepares = subst (λ t. Models t p) (sym n.prepare_votes) logs.prepares;
        commits = subst (λ t. Models t c) (sym n.commit_votes) logs.commits;
      } in
      let of_commits = sym n.commit_votes in
      let of_prepares = sym n.prepare_votes in
      let same_table : vote_table vote e ≡ vote_table vote e' =
        λ i. if bytes_eq vote.type (codes "COMMIT") then of_commits i else of_prepares i in
      let agrees' : Agrees vote e' =
        subst (λ t. (known : Bytes) → get t (vote_key vote) ≡ some known → known ≡ vote.block_hash)
          same_table agrees in
      let log = store_vote-IsLogged later vote e' p c logs' agrees' in
      let r = log.result in
      let recorded = record_vote-store_vote dump later vote e' agrees' ∙ log.returned in
      let s =
        of_Always (λ (x : Recorded D). SameRound e' x.engine) _ r
          (record_vote-SameRound dump later vote e') recorded in
      let kept =
        of_Always (λ (x : Recorded D). x.recorded ≡ true) _ r (store_vote-recorded later vote e')
          log.returned in
      let round = s.round in
      (
        count_commit later vote sigs r.engine,
        on_commit-count_commit dump later vote sigs e' r recorded kept,
        counts_at_once later vote sigs r.engine (ap is_drop_commit (s.mode ∙ n.mode) ∙ mode)
            (fits_if_equal vote r.engine.current_round
              (h ∙ sym (ap (λ (x : ConsensusRound). x.height) round ∙ n.height))
              (v ∙ sym (ap (λ (x : ConsensusRound). x.view) round ∙ n.view))
              (b ∙ sym (ap (λ (x : ConsensusRound). x.block_hash) round ∙ n.block_hash)))
            (ap (λ (x : ConsensusRound). member vote.sender_id x.commit_senders) round
              ∙ ap (member vote.sender_id) n.commit_senders
              ∙ fresh)
            (subst (λ m. 2 * m ≤ length r.engine.current_round.commit_senders)
              (sym (ap (λ (x : NodeConfig). x.f) (s.config ∙ n.config)))
              (subst (λ (l : List Bytes). 2 * e.config.f ≤ length l)
                (sym (ap (λ (x : ConsensusRound). x.commit_senders) round ∙ n.commit_senders))
                many)),
      )
