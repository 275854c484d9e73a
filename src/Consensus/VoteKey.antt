-- ===== src/Consensus/VoteKey.antt =====
-- src/consensus/consensus.cpp: which votes are compared with each other.
use blockchain_demo.Prelude.{◌≡◌}
use blockchain_demo.Encoding.{decimal}
use blockchain_demo.Encoding.Decimal.{decimal-injective}
use blockchain_demo.Encoding.Fields.{LacksBar, split_at_bar, decimal-LacksBar}
use blockchain_demo.Consensus.{ConsensusMessage}
use blockchain_demo.Consensus.Engine.{vote_key}

-- The votes are of one kind, for one height, view and instance, by one sender.
pub record SameVote (a b : ConsensusMessage) : Type 0 where
  pub type : a.type ≡ b.type
  pub height : a.height ≡ b.height
  pub view : a.view ≡ b.view
  pub instance_id : a.instance_id ≡ b.instance_id
  pub sender : a.sender_id ≡ b.sender_id

-- Two votes whose types hold no separator have one key only if they are of one type, for one height,
-- view and instance, and by one sender.
vote_key-injective :
    (a b : ConsensusMessage)
    → LacksBar a.type
    → LacksBar b.type
    → vote_key a ≡ vote_key b
    → SameVote a b
unfolding vote_key
vote_key-injective a b pa pb e =
    let (type, e1) = split_at_bar a.type b.type _ _ pa pb e in
    let (height, e2) =
      split_at_bar (decimal a.height) (decimal b.height) _ _ (decimal-LacksBar a.height)
        (decimal-LacksBar b.height) e1 in
    let (view, e3) =
      split_at_bar (decimal a.view) (decimal b.view) _ _ (decimal-LacksBar a.view)
        (decimal-LacksBar b.view) e2 in
    let (inst, e4) =
      split_at_bar (decimal a.instance_id) (decimal b.instance_id) _ _
        (decimal-LacksBar a.instance_id) (decimal-LacksBar b.instance_id) e3 in
    record {
      type = type;
      height = decimal-injective a.height b.height height;
      view = decimal-injective a.view b.view view;
      instance_id = decimal-injective a.instance_id b.instance_id inst;
      sender = e4;
    }
