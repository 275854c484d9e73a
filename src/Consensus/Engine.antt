-- ===== src/Consensus/Engine.antt =====
-- src/consensus/consensus.cpp: the event log, the quarantine, the choice of the primary and the
-- record of votes. A reading of the clock is the argument `now` of the operation that reads it, and
-- the text of evidence, which the JSON library prints, is the parameter `dump`.
use blockchain_demo.Prelude.{
  ℕ, ◌-◌, ◌+◌, ◌*◌, ◌%◌, min, Bool, true, false, List, [], ◌∷◌, ◌++◌, Option, none, some, Bytes,
  codes, map, length, drop, get_or, ◌==◌, bytes_eq, if◌then◌else◌,
}
use blockchain_demo.Encoding.{decimal}
use blockchain_demo.Encoding.Fields.{bar}
use blockchain_demo.Transaction.{is_empty}
use blockchain_demo.HashTable.{new}
use blockchain_demo.Storage.{Sqlite, put_metadata, get_metadata}
use blockchain_demo.Consensus.{
  NodeConfig, PeerConfig, ConsensusMessage, ConsensusEvent, ConsensusEngine, new_round,
}
use blockchain_demo.Consensus.Attack.{
  AttackMode, normal, node_crash_simulated, attack_mode_to_string,
}
use blockchain_demo.Consensus.Sets.{member, place, insert, erase}

-- arithmetic on `uint64_t`
unfoldable pub wrap : ℕ → ℕ
wrap n = n % 18446744073709551616

-- The fields of an event that its writer fills in; `AddEvent` adds the others.
abbrev pub event : ℕ → ℕ → ℕ → Bytes → Bytes → Bytes → Bytes → Bool → Bytes → ConsensusEvent
event height view instance_id event_type from to block_hash accepted reason = record {
  id = 0;
  timestamp = 0;
  node_id = [];
  height = height;
  view = view;
  instance_id = instance_id;
  event_type = event_type;
  from = from;
  to = to;
  block_hash = block_hash;
  accepted = accepted;
  reason = reason;
  attack_mode = [];
}

-- the last `n` elements, or all
unfoldable pub last_of {ℓ} : {A : Type ℓ} → ℕ → List A → List A
last_of n xs = drop (length xs - n) xs

-- the loop that takes line ends off the key that was read
unfoldable pub trim_line : Bytes → Bytes
unfolding is_empty
trim_line [] = []
trim_line (c ∷ s) =
    let rest = trim_line s in
    if is_empty rest then (if c == 10 then [] else if c == 13 then [] else c ∷ []) else c ∷ rest

-- `std::sort`
unfoldable pub sort : List Bytes → List Bytes
unfolding place
sort [] = []
sort (x ∷ xs) = place x (sort xs)

-- the loop of `Primary` that skips the quarantined nodes
unfoldable pub active_of : List Bytes → List Bytes → List Bytes
unfolding member
active_of quarantined [] = []
active_of quarantined (x ∷ xs) =
    let rest = active_of quarantined xs in if member x quarantined then rest else x ∷ rest

unfoldable pub node_ids : NodeConfig → List Bytes
unfolding sort
node_ids config = sort (config.node_id ∷ map (λ (p : PeerConfig). p.node_id) config.peers)

-- `SerializeConsensusMessageForSign`
unfoldable pub serialize_consensus_message_for_sign : ConsensusMessage → Bytes
serialize_consensus_message_for_sign msg =
    let sender = msg.sender_id ++ (bar ∷ decimal msg.timestamp) in
    let instance_and_hash = decimal msg.instance_id ++ (bar ∷ (msg.block_hash ++ (bar ∷ sender))) in
    msg.type
    ++ (bar
        ∷ (msg.chain_id
            ++ (bar
                ∷ (decimal msg.height ++ (bar ∷ (decimal msg.view ++ (bar ∷ instance_and_hash)))))))

-- `VoteKey`
unfoldable pub vote_key : ConsensusMessage → Bytes
vote_key msg =
    msg.type
    ++ (bar
        ∷ (decimal msg.height
            ++ (bar
                ∷ (decimal msg.view
                    ++ (bar ∷ (decimal msg.instance_id ++ (bar ∷ msg.sender_id)))))))

module _ {D : Type 0} where
  -- The constructor, given the first line of the key file where it could be read.
  unfoldable pub new_engine : NodeConfig → Option D → Option Bytes → ℕ → ConsensusEngine D
  unfolding trim_line
  new_engine config storage first_line now = record {
    config = config;
    storage = storage;
    node_private_key = elim first_line [ none ↦ [] | some line ↦ trim_line line ];
    attack_mode = normal;
    running = true;
    prepare_votes = new 128;
    commit_votes = new 128;
    evidence = [];
    events = [];
    next_event_id = 1;
    quarantined_nodes = [];
    current_view = 0;
    current_round = new_round now;
    view_change_votes = λ _. [];
  }

  -- `Primary`
  unfoldable pub primary : ConsensusEngine D → ℕ → ℕ → Bytes
  unfolding node_ids active_of wrap
  primary e view instance_id =
      let nodes = node_ids e.config in
      let active_nodes = active_of e.quarantined_nodes nodes in
      let turn = wrap (view + instance_id) in
      elim active_nodes [
        | [] ↦ get_or nodes (turn % length nodes) []
        | x ∷ xs ↦ get_or (x ∷ xs) (turn % length (x ∷ xs)) []
      ]

  -- `Quorum`
  unfoldable pub quorum : ConsensusEngine D → ℕ
  quorum e = 2 * e.config.f + 1

  -- `AddEvent`
  unfoldable pub add_event : ℕ → ConsensusEvent → ConsensusEngine D → ConsensusEngine D
  unfolding is_empty last_of attack_mode_to_string wrap
  add_event now ev e =
      let filled : ConsensusEvent = record ev {
        id = e.next_event_id;
        timestamp = if ev.timestamp == 0 then now else ev.timestamp;
        node_id = if is_empty ev.node_id then e.config.node_id else ev.node_id;
        attack_mode =
            if is_empty ev.attack_mode then attack_mode_to_string e.attack_mode else ev.attack_mode;
      } in
      record e {
        next_event_id = wrap (e.next_event_id + 1);
        events = last_of 1000 (e.events ++ (filled ∷ []));
      }

  -- `RecentEvents`
  unfoldable pub recent_events : ℕ → ConsensusEngine D → List ConsensusEvent
  unfolding last_of
  recent_events limit e = last_of (min limit (length e.events)) e.events

  -- `SetAttackMode`, `Stop` and `Start`
  unfoldable pub set_attack_mode : ℕ → AttackMode → ConsensusEngine D → ConsensusEngine D
  unfolding add_event
  set_attack_mode now mode e =
      add_event now
        (event 0 0 0 (codes "ATTACK_MODE_SET") e.config.node_id e.config.node_id [] true [])
        (record e { attack_mode = mode })

  unfoldable pub stop : ℕ → ConsensusEngine D → ConsensusEngine D
  unfolding add_event
  stop now e =
      add_event now
        (event 0 0 0 (codes "CONSENSUS_STOP") e.config.node_id e.config.node_id [] true [])
        (record e { running = false })

  unfoldable pub start : ℕ → ConsensusEngine D → ConsensusEngine D
  unfolding add_event
  start now e =
      add_event now
        (event 0 0 0 (codes "CONSENSUS_START") e.config.node_id e.config.node_id [] true [])
        (record e { running = true })

  -- `IsRunning`
  unfoldable pub is_running : ConsensusEngine D → Bool
  is_running e = elim e.attack_mode [ node_crash_simulated ↦ false | _ ↦ e.running ]

  -- `IsPrimary`
  unfoldable pub is_primary : ConsensusEngine D → Bool
  unfolding primary
  is_primary e = bytes_eq (primary e e.current_view 0) e.config.node_id

  unfoldable pub is_quarantined : Bytes → ConsensusEngine D → Bool
  unfolding member
  is_quarantined node_id e = member node_id e.quarantined_nodes

module _ {D : Type 0} ⦃sqlite : Sqlite D⦄ where
  -- the write to the storage, where there is one
  unfoldable pub note_in_storage : Bytes → Bytes → ConsensusEngine D → Option (ConsensusEngine D)
  note_in_storage key value e = elim e.storage [
    | none ↦ some e
    | some db ↦ elim (put_metadata db key value) [
      | none ↦ none
      | some db' ↦ some (record e { storage = some db' })
    ]
  ]

  -- `QuarantineNode`; `none` is the exception of the storage.
  unfoldable pub quarantine_node :
      ℕ → Bytes → Bytes → ConsensusEngine D → Option (ConsensusEngine D)
  unfolding member insert note_in_storage add_event
  quarantine_node now node_id reason e =
      if member node_id e.quarantined_nodes
      then some e
      else elim (note_in_storage (codes "quarantine:" ++ node_id) reason
          (record e { quarantined_nodes = insert node_id e.quarantined_nodes })) [
            | none ↦ none
            | some e' ↦ some (
                add_event now
                  (event 0 0 0 (codes "NODE_QUARANTINED") node_id e.config.node_id [] false reason)
                  e')
          ]

  -- `UnquarantineNode`
  unfoldable pub unquarantine_node : ℕ → Bytes → ConsensusEngine D → Option (ConsensusEngine D)
  unfolding erase note_in_storage add_event
  unquarantine_node now node_id e =
      elim (note_in_storage (codes "quarantine:" ++ node_id) []
        (record e { quarantined_nodes = erase node_id e.quarantined_nodes })) [
          | none ↦ none
          | some e' ↦ some (
              add_event now
                (event 0 0 0 (codes "NODE_UNQUARANTINED") node_id e.config.node_id [] true []) e')
        ]

  -- `check` of `LoadQuarantineFromStorage`, for the given nodes in turn
  unfoldable pub check_all : D → List Bytes → List Bytes → List Bytes
  unfolding insert is_empty get_metadata
  check_all db [] found = found
  check_all db (nid ∷ nids) found = check_all db nids (
      if is_empty (get_metadata db (codes "quarantine:" ++ nid) [])
      then found
      else insert nid found)

  -- `LoadQuarantineFromStorage`, for a storage that is not null
  unfoldable pub load_quarantine_from_storage : D → ConsensusEngine D → ConsensusEngine D
  unfolding check_all
  load_quarantine_from_storage db e = record e {
    quarantined_nodes =
        check_all db (e.config.node_id ∷ map (λ (p : PeerConfig). p.node_id) e.config.peers) [];
  }
