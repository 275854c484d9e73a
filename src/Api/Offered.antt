-- ===== src/Api/Offered.antt =====
-- src/api/api_server.cpp: which PRE_PREPARE messages `/p2p/consensus/message` accepts.
use blockchain_demo.Prelude.{
  ℕ, ◌≡◌, ◌≢◌, ◌<◌, refl, sym, ◌∙◌, ap, subst, Bool, true, false, Option, none, some, Bytes, codes,
  bytes_eq, bytes_eq_iff, leb, arith, Bool-cases, Option-cases, inl, inr,
}
use blockchain_demo.Outcome.{Outcome, done, threw}
use blockchain_demo.Encoding.{hash_to_hex}
use blockchain_demo.Encoding.Parse.{stoull}
use blockchain_demo.Crypto.{Sodium}
use blockchain_demo.HashTable.Hashing.{Key}
use blockchain_demo.Json.{Nlohmann}
use blockchain_demo.Merkle.{compute_root}
use blockchain_demo.Block.{Block, empty_block}
use blockchain_demo.Storage.{Sqlite, get_metadata}
use blockchain_demo.Executor.{execute_for_state_root}
use blockchain_demo.Consensus.{ConsensusMessage, ConsensusEngine, Evidence}
use blockchain_demo.Consensus.Engine.{primary, add_event}
use blockchain_demo.Consensus.Messages.{on_pre_prepare, enter_round}
use blockchain_demo.Api.{ApiServer, engine_of, with_engine, has_own_hash, try_quarantine}
use blockchain_demo.Api.Messages.{
  MessageReply, pre_prepared, pre_prepare_rejected, merkle_refused, hash_refused, refuse_after,
  refuse_state, verify_hash, verify_state, verify_merkle, after_pre_prepare, handle_pre_prepare,
  on_message, noted,
}

module _ {D : Type 0} where
  refuse_after-not_prepared :
      (now : ℕ) (reply : MessageReply) (o : Outcome (ApiServer D)) (s' : ApiServer D)
      → reply ≢ pre_prepared
      → refuse_after now reply o ≡ (s', pre_prepared)
      → ⊥
  unfolding refuse_after
  refuse_after-not_prepared now reply (done s) s' ne e = ne (λ i. (e i).1)
  refuse_after-not_prepared now reply (threw s) s' ne e = cc

  refuse_state-not_prepared :
      (now : ℕ) (o : Outcome (ApiServer D)) (s' : ApiServer D)
      → refuse_state now o ≡ (s', pre_prepared)
      → ⊥
  unfolding refuse_state
  refuse_state-not_prepared now (done s) s' e = cc
  refuse_state-not_prepared now (threw s) s' e = cc

pre_prepare_rejected-ne : pre_prepare_rejected ≢ pre_prepared
pre_prepare_rejected-ne e = cc

-- the block of a message, or the default one that `OnPrePrepare` leaves
abbrev pub offered_block : ConsensusMessage → Block
offered_block msg = elim msg.block [ none ↦ empty_block | some block ↦ block ]

module _ {D : Type 0} ⦃sqlite : Sqlite D⦄ ⦃sodium : Sodium⦄ (now : ℕ) (msg : ConsensusMessage) where
  verify_hash-cases :
      (block : Block) (s s' : ApiServer D)
      → verify_hash now msg block s ≡ (s', pre_prepared)
      → (has_own_hash block ≡ true) × (s ≡ s')
  unfolding verify_hash
  verify_hash-cases block s s' p = elim (Bool-cases (has_own_hash block)) [
    | inl own ↦ (own, λ i. (rw own at p i).0)
    | inr other ↦ absurd (
        refuse_after-not_prepared now hash_refused
          (try_quarantine now msg.sender_id (codes "PRE_PREPARE block_hash mismatch") s) s'
          (λ e. cc) (rw other at p))
  ]

  verify_state-cases :
      (block : Block) (o : Option Bytes) (s s' : ApiServer D)
      → verify_state now msg block o s ≡ (s', pre_prepared)
      → (o ≡ some block.header.state_root) × (has_own_hash block ≡ true) × (s ≡ s')
  unfolding verify_state
  verify_state-cases block none s s' p = cc
  verify_state-cases block (some root) s s' p =
      elim (Bool-cases (bytes_eq root block.header.state_root)) [
        | inl same ↦
            let (own, left) = verify_hash-cases block s s' (rw same at p) in
            (ap some ((bytes_eq_iff root block.header.state_root).0 same), own, left)
        | inr other ↦ absurd (
            refuse_state-not_prepared now
              (try_quarantine now msg.sender_id (codes "PRE_PREPARE state_root mismatch") s) s'
              (rw other at p))
      ]

  -- The tests on the content of a block.
  pub record IsVerified (block : Block) (s s' : ApiServer D) : Type 0 where
    pub root : Bytes
    pub computed : compute_root block.transactions ≡ some root
    pub merkle : hash_to_hex root ≡ block.header.tx_merkle_root
    pub state :
        (execute_for_state_root block.transactions s.executor).1 ≡ some block.header.state_root
    pub own : has_own_hash block ≡ true
    pub left : record s { executor = (execute_for_state_root block.transactions s.executor).0 } ≡ s'

  verify_merkle-cases :
      (block : Block) (o : Option Bytes) (s s' : ApiServer D)
      → compute_root block.transactions ≡ o
      → verify_merkle now msg block o s ≡ (s', pre_prepared)
      → IsVerified block s s'
  unfolding verify_merkle
  verify_merkle-cases block none s s' c p = cc
  verify_merkle-cases block (some root) s s' c p =
      let ran = execute_for_state_root block.transactions s.executor in
      elim (Bool-cases (bytes_eq (hash_to_hex root) block.header.tx_merkle_root)) [
        | inl same ↦
            let (state, own, left) =
              verify_state-cases block ran.1 (record s { executor = ran.0 }) s' (rw same at p) in
            record {
              root = root;
              computed = c;
              merkle = (bytes_eq_iff (hash_to_hex root) block.header.tx_merkle_root).0 same;
              state = state;
              own = own;
              left = left;
            }
        | inr other ↦ absurd (
            refuse_after-not_prepared now merkle_refused
              (try_quarantine now msg.sender_id (codes "PRE_PREPARE merkle mismatch") s) s'
              (λ e. cc) (rw other at p))
      ]

  -- The tests of `OnPrePrepare`, and the state that follows.
  pub record IsFromLeader (s : ApiServer D) (e : ConsensusEngine D) (block : Block) : Type 0 where
    pub leader : msg.sender_id ≡ primary (engine_of s) msg.view msg.instance_id
    pub latest : ℕ
    pub stored :
        stoull (get_metadata s.executor.storage (codes "latest_height") (codes "0")) ≡ some latest
    pub above : latest < msg.height
    pub entered : enter_round now msg empty_block (engine_of s) ≡ (e, block)

  on_pre_prepare-cases :
      (s : ApiServer D) (e : ConsensusEngine D) (block : Block)
      → on_pre_prepare now msg empty_block (engine_of s) ≡ some (e, block, true)
      → IsFromLeader s e block
  unfolding on_pre_prepare engine_of
  on_pre_prepare-cases s e block p =
      let chosen = primary (engine_of s) msg.view msg.instance_id in
      let read = stoull (get_metadata s.executor.storage (codes "latest_height") (codes "0")) in
      elim (Bool-cases (bytes_eq msg.sender_id chosen)) [
        | inr other ↦ ground arith
        | inl same ↦ elim (Option-cases read) [
          | inl stuck ↦ ground arith
          | inr (latest, stored) ↦ elim (Bool-cases (leb msg.height latest)) [
            | inl old ↦ ground arith
            | inr new ↦ record {
              leader = (bytes_eq_iff msg.sender_id chosen).0 same;
              latest = latest;
              stored = stored;
              above = ground arith;
              entered = ground arith;
            }
          ]
        ]
      ]

  enter_round-offered :
      (e : ConsensusEngine D) → (enter_round now msg empty_block e).1 ≡ offered_block msg
  unfolding enter_round
  enter_round-offered e = elim (Option-cases msg.block) [
    | inl missing ↦ rw missing refl
    | inr (block, carried) ↦ rw carried refl
  ]

  enter_round-executor :
      (s : ApiServer D)
      → (with_engine s (enter_round now msg empty_block (engine_of s)).0).executor ≡ s.executor
  unfolding enter_round engine_of with_engine add_event
  enter_round-executor s = elim (Option-cases msg.block) [
    | inl missing ↦ rw missing refl
    | inr (block, carried) ↦ rw carried refl
  ]

  enter_round-proposed :
      (s : ApiServer D) (block : Block)
      → msg.block ≡ some block
      → (with_engine s (enter_round now msg empty_block (engine_of s)).0
          ).consensus.current_round.proposed_block
        ≡ block
  unfolding enter_round engine_of with_engine add_event
  enter_round-proposed s block carried = rw carried refl

  after_pre_prepare-none :
      (s s' : ApiServer D) → after_pre_prepare now msg s none ≡ (s', pre_prepared) → ⊥
  unfolding after_pre_prepare
  after_pre_prepare-none s s' p = cc

  after_pre_prepare-false :
      (e : ConsensusEngine D) (block : Block) (s s' : ApiServer D)
      → after_pre_prepare now msg s (some (e, block, false)) ≡ (s', pre_prepared)
      → ⊥
  unfolding after_pre_prepare
  after_pre_prepare-false e block s s' p = pre_prepare_rejected-ne (λ i. (p i).1)

  after_pre_prepare-true :
      (e : ConsensusEngine D) (block : Block) (s s' : ApiServer D)
      → after_pre_prepare now msg s (some (e, block, true)) ≡ (s', pre_prepared)
      → verify_merkle now msg block (compute_root block.transactions) (with_engine s e)
        ≡ (s', pre_prepared)
  unfolding after_pre_prepare
  after_pre_prepare-true e block s s' p = p

  -- What an accepted message has passed.
  record IsAdmitted (s s' : ApiServer D) (o : Option (ConsensusEngine D × Block × Bool))
      : Type 0 where
    engine : ConsensusEngine D
    block : Block
    given : o ≡ some (engine, block, true)
    verified : IsVerified block (with_engine s engine) s'

  after_pre_prepare-IsAdmitted :
      (o : Option (ConsensusEngine D × Block × Bool)) (s s' : ApiServer D)
      → after_pre_prepare now msg s o ≡ (s', pre_prepared)
      → IsAdmitted s s' o
  after_pre_prepare-IsAdmitted none s s' p = absurd (after_pre_prepare-none s s' p)
  after_pre_prepare-IsAdmitted (some (e, block, false)) s s' p =
      absurd (after_pre_prepare-false e block s s' p)
  after_pre_prepare-IsAdmitted (some (e, block, true)) s s' p = record {
    engine = e;
    block = block;
    given = refl;
    verified =
        verify_merkle-cases block (compute_root block.transactions) (with_engine s e) s' refl
          (after_pre_prepare-true e block s s' p);
  }

  -- A PRE_PREPARE that a node has accepted.
  pub record IsOffered (s s' : ApiServer D) : Type 0 where
    pub leader : msg.sender_id ≡ primary (engine_of s) msg.view msg.instance_id
    pub latest : ℕ
    pub stored :
        stoull (get_metadata s.executor.storage (codes "latest_height") (codes "0")) ≡ some latest
    pub above : latest < msg.height
    pub root : Bytes
    pub computed : compute_root (offered_block msg).transactions ≡ some root
    pub merkle : hash_to_hex root ≡ (offered_block msg).header.tx_merkle_root
    pub state :
        (execute_for_state_root (offered_block msg).transactions s.executor).1
        ≡ some (offered_block msg).header.state_root
    pub own : has_own_hash (offered_block msg) ≡ true
    pub proposed :
        (block : Block) → msg.block ≡ some block → s'.consensus.current_round.proposed_block ≡ block

  handle_pre_prepare-IsOffered :
      (s s' : ApiServer D) → handle_pre_prepare now msg s ≡ (s', pre_prepared) → IsOffered s s'
  unfolding handle_pre_prepare
  handle_pre_prepare-IsOffered s s' p =
      let admitted =
        after_pre_prepare-IsAdmitted (on_pre_prepare now msg empty_block (engine_of s)) s s' p in
      let e = admitted.engine in
      let block = admitted.block in
      let verified = admitted.verified in
      let l = on_pre_prepare-cases s e block admitted.given in
      let same_engine : (enter_round now msg empty_block (engine_of s)).0 ≡ e =
        λ i. (l.entered i).0 in
      let same_block : offered_block msg ≡ block =
        sym (enter_round-offered (engine_of s)) ∙ (λ i. (l.entered i).1) in
      let same_executor : (with_engine s e).executor ≡ s.executor =
        subst (λ x. (with_engine s x).executor ≡ s.executor) same_engine (enter_round-executor s) in
      record {
        leader = l.leader;
        latest = l.latest;
        stored = l.stored;
        above = l.above;
        root = verified.root;
        computed =
            subst (λ b. compute_root b.transactions ≡ some verified.root) (sym same_block)
              verified.computed;
        merkle =
            subst (λ b. hash_to_hex verified.root ≡ b.header.tx_merkle_root) (sym same_block)
              verified.merkle;
        state =
            subst
              (λ b. (execute_for_state_root b.transactions s.executor).1 ≡ some b.header.state_root)
              (sym same_block)
              (subst
                (λ x.
                  (execute_for_state_root block.transactions x).1 ≡ some block.header.state_root)
                same_executor verified.state);
        own = subst (λ b. has_own_hash b ≡ true) (sym same_block) verified.own;
        proposed = λ b carried.
            ap (λ x. x.consensus.current_round.proposed_block) (sym verified.left)
            ∙ subst (λ x. (with_engine s x).consensus.current_round.proposed_block ≡ b) same_engine
                (enter_round-proposed s b carried);
      }

  on_message-pre_prepare :
      ⦃key : Key Bytes⦄ (J : Type 0) ⦃json : Nlohmann J⦄ (dump : Evidence → Bytes) (s : ApiServer D)
      → msg.type ≡ codes "PRE_PREPARE"
      → on_message now msg J dump s ≡ handle_pre_prepare now msg (noted now msg s)
  unfolding on_message bytes_eq
  on_message-pre_prepare J dump s typed = rw typed refl

  -- A PRE_PREPARE that `/p2p/consensus/message` accepts comes from the primary of its view and
  -- instance, is above the stored height, and carries a block whose Merkle root, state root and hash
  -- are those that this node computes itself; it becomes the proposed block of the round. The state is
  -- the one with the event of the message.
  pub on_message-IsOffered :
      ⦃key : Key Bytes⦄ (J : Type 0) ⦃json : Nlohmann J⦄ (dump : Evidence → Bytes)
      (s s' : ApiServer D)
      → msg.type ≡ codes "PRE_PREPARE"
      → on_message now msg J dump s ≡ (s', pre_prepared)
      → IsOffered (noted now msg s) s'
  on_message-IsOffered J dump s s' typed p =
      handle_pre_prepare-IsOffered (noted now msg s) s'
        (sym (on_message-pre_prepare J dump s typed) ∙ p)
