-- ===== src/Consensus/Attack.antt =====
-- src/consensus/consensus.cpp: the attack modes and their names.
use blockchain_demo.Prelude.{◌≡◌, refl, Bytes, codes, bytes_eq, if◌then◌else◌}

pub data AttackMode : Type 0 where
  normal bad_merkle_root bad_state_root invalid_block_hash invalid_node_signature : AttackMode
  drop_prepare drop_commit delay_preprepare double_proposal : AttackMode
  node_crash_simulated equivocation_prepare replay_old_message : AttackMode

-- `AttackModeToString`
unfoldable pub attack_mode_to_string : AttackMode → Bytes
attack_mode_to_string normal = codes "normal"
attack_mode_to_string bad_merkle_root = codes "bad_merkle_root"
attack_mode_to_string bad_state_root = codes "bad_state_root"
attack_mode_to_string invalid_block_hash = codes "invalid_block_hash"
attack_mode_to_string invalid_node_signature = codes "invalid_node_signature"
attack_mode_to_string drop_prepare = codes "drop_prepare"
attack_mode_to_string drop_commit = codes "drop_commit"
attack_mode_to_string delay_preprepare = codes "delay_preprepare"
attack_mode_to_string double_proposal = codes "double_proposal"
attack_mode_to_string node_crash_simulated = codes "node_crash_simulated"
attack_mode_to_string equivocation_prepare = codes "equivocation_prepare"
attack_mode_to_string replay_old_message = codes "replay_old_message"

-- `AttackModeFromString`
unfoldable pub attack_mode_from_string : Bytes → AttackMode
attack_mode_from_string mode =
    if bytes_eq mode (codes "bad_merkle_root")
    then bad_merkle_root
    else if bytes_eq mode (codes "bad_state_root")
    then bad_state_root
    else if bytes_eq mode (codes "invalid_block_hash")
    then invalid_block_hash
    else if bytes_eq mode (codes "invalid_node_signature")
    then invalid_node_signature
    else if bytes_eq mode (codes "drop_prepare")
    then drop_prepare
    else if bytes_eq mode (codes "drop_commit")
    then drop_commit
    else if bytes_eq mode (codes "delay_preprepare")
    then delay_preprepare
    else if bytes_eq mode (codes "double_proposal")
    then double_proposal
    else if bytes_eq mode (codes "node_crash_simulated")
    then node_crash_simulated
    else if bytes_eq mode (codes "equivocation_prepare")
    then equivocation_prepare
    else if bytes_eq mode (codes "replay_old_message")
    then replay_old_message
    else normal

-- Every attack mode is read back from its name.
pub attack_mode_from_string-attack_mode_to_string :
    (mode : AttackMode) → attack_mode_from_string (attack_mode_to_string mode) ≡ mode
unfolding attack_mode_from_string attack_mode_to_string bytes_eq
attack_mode_from_string-attack_mode_to_string normal = refl
attack_mode_from_string-attack_mode_to_string bad_merkle_root = refl
attack_mode_from_string-attack_mode_to_string bad_state_root = refl
attack_mode_from_string-attack_mode_to_string invalid_block_hash = refl
attack_mode_from_string-attack_mode_to_string invalid_node_signature = refl
attack_mode_from_string-attack_mode_to_string drop_prepare = refl
attack_mode_from_string-attack_mode_to_string drop_commit = refl
attack_mode_from_string-attack_mode_to_string delay_preprepare = refl
attack_mode_from_string-attack_mode_to_string double_proposal = refl
attack_mode_from_string-attack_mode_to_string node_crash_simulated = refl
attack_mode_from_string-attack_mode_to_string equivocation_prepare = refl
attack_mode_from_string-attack_mode_to_string replay_old_message = refl
