-- ===== src/Consensus/Json.antt =====
-- src/consensus/consensus.cpp: the JSON form of messages and events.
use blockchain_demo.Prelude.{
  ℕ, ◌≡◌, ◌<◌, ◌^◌, ◌%◌, ap, arith, refl, List, [], ◌∷◌, Option, some, none, Bytes, codes, bytes_eq,
  Bool, if◌then◌else◌, ◌>>=◌,
}
use mathlib.Core.Option
use native.Mathlib.Nat.{mod-eq_of_lt}
use blockchain_demo.Json.{
  Nlohmann, text_at, number_at, text_or, number_or, text_at-object, number_at-object,
  text_or-object, number_or-object, lookup_field,
}
use blockchain_demo.Crypto.{Sodium}
use blockchain_demo.Block.{Block}
use blockchain_demo.Block.Json.{
  BlockFits, stored_form, block_fields, block_to_json, block_from_json,
  block_from_json-block_to_json,
}
use blockchain_demo.Consensus.{ConsensusMessage, ConsensusEvent}

module _ {J : Type 0} ⦃json : Nlohmann J⦄ where
  -- `j["block"] = ...`, where the message has a block
  unfoldable pub block_field : Option Block → List (Bytes × J)
  block_field none = []
  block_field (some b) = (codes "block", block_to_json b) ∷ []

  abbrev pub message_fields : ConsensusMessage → List (Bytes × J)
  message_fields msg =
      (codes "msg_id", json.text msg.msg_id)
      ∷ (codes "type", json.text msg.type)
      ∷ (codes "chain_id", json.text msg.chain_id)
      ∷ (codes "height", json.number msg.height)
      ∷ (codes "view", json.number msg.view)
      ∷ (codes "instance_id", json.number msg.instance_id)
      ∷ (codes "block_hash", json.text msg.block_hash)
      ∷ (codes "sender_id", json.text msg.sender_id)
      ∷ (codes "timestamp", json.number msg.timestamp)
      ∷ (codes "signature", json.text msg.signature_hex)
      ∷ block_field msg.block

  -- `ConsensusMessageToJson`
  unfoldable pub consensus_message_to_json : ConsensusMessage → J
  unfolding block_field
  consensus_message_to_json msg = json.object (message_fields msg)

  -- `ConsensusEventToJson`; `flag` makes the JSON value of a `bool`.
  unfoldable pub consensus_event_to_json : (Bool → J) → ConsensusEvent → J
  consensus_event_to_json flag event = json.object (
      (codes "id", json.number event.id)
      ∷ (codes "timestamp", json.number event.timestamp)
      ∷ (codes "node_id", json.text event.node_id)
      ∷ (codes "height", json.number event.height)
      ∷ (codes "view", json.number event.view)
      ∷ (codes "instance_id", json.number event.instance_id)
      ∷ (codes "event_type", json.text event.event_type)
      ∷ (codes "from", json.text event.from)
      ∷ (codes "to", json.text event.to)
      ∷ (codes "block_hash", json.text event.block_hash)
      ∷ (codes "accepted", flag event.accepted)
      ∷ (codes "reason", json.text event.reason)
      ∷ (codes "attack_mode", json.text event.attack_mode)
      ∷ [])

  module _ ⦃sodium : Sodium⦄ where
    -- the block that `ConsensusMessageFromJson` reads, if the field is there and not null
    unfoldable pub message_block : Option J → Option (Option Block)
    message_block none = some none
    message_block (some v) =
        if json.is_null v then some none else (block_from_json v >>= λ b. some (some b))

    -- `ConsensusMessageFromJson` at the time `now`
    unfoldable pub consensus_message_from_json : ℕ → J → Option ConsensusMessage
    unfolding message_block
    consensus_message_from_json now j = do
      msg_id ← text_or j (codes "msg_id") []
      type ← text_at j (codes "type")
      chain_id ← text_at j (codes "chain_id")
      height ← number_at j (codes "height")
      view ← number_at j (codes "view")
      instance_id ← number_at j (codes "instance_id")
      block_hash ← text_or j (codes "block_hash") []
      sender_id ← text_at j (codes "sender_id")
      timestamp ← number_or j (codes "timestamp") now
      signature_hex ← text_or j (codes "signature") []
      block ← message_block (json.find j (codes "block"))
      some (record {
        msg_id = msg_id;
        type = type;
        chain_id = chain_id;
        height = height;
        view = view;
        instance_id = instance_id % 2 ^ 32;
        block_hash = block_hash;
        block = block;
        sender_id = sender_id;
        timestamp = timestamp;
        signature_hex = signature_hex;
      })

abbrev pub CarriedFits : Option Block → Type 0
CarriedFits none = Unit {0}
CarriedFits (some b) = BlockFits b

-- The numbers of the message fit their types.
pub record MessageFits (msg : ConsensusMessage) : Type 0 where
  pub height : msg.height < 2 ^ 64
  pub view : msg.view < 2 ^ 64
  pub instance_id : msg.instance_id < 2 ^ 32
  pub timestamp : msg.timestamp < 2 ^ 64
  pub block : CarriedFits msg.block

abbrev pub received_form : ⦃sodium : Sodium⦄ → ConsensusMessage → ConsensusMessage
received_form msg = record msg { block = Option.map stored_form msg.block }

module _ (J : Type 0) ⦃json : Nlohmann J⦄ ⦃sodium : Sodium⦄ where
  message_block-lookup_field :
      (carried : Option Block)
      → CarriedFits carried
      → message_block (lookup_field (codes "block") (block_field {J = J} carried))
        ≡ some (Option.map stored_form carried)
  unfolding message_block bytes_eq block_field block_to_json
  message_block-lookup_field none fits = refl
  message_block-lookup_field (some b) fits =
      rw (json.is_null-object (block_fields b)) (
        ap (λ (o : Option Block). o >>= λ c. some (some c))
          (block_from_json-block_to_json J b fits))

  -- A message whose numbers fit their types comes back from its JSON form, whatever the time of the
  -- reading; a block that it carries has lost its commit signatures, and missing identifiers of its
  -- transactions are filled in.
  pub consensus_message_from_json-consensus_message_to_json :
      (now : ℕ) (msg : ConsensusMessage)
      → MessageFits msg
      → consensus_message_from_json {J = J} now (consensus_message_to_json msg)
        ≡ some (received_form msg)
  unfolding consensus_message_from_json consensus_message_to_json bytes_eq
  consensus_message_from_json-consensus_message_to_json now msg fits =
      let fs : List (Bytes × J) = message_fields msg in
      rw
        (
          text_or-object fs (codes "msg_id") [] msg.msg_id refl,
          text_at-object fs (codes "type") msg.type refl,
          text_at-object fs (codes "chain_id") msg.chain_id refl,
          number_at-object fs (codes "height") msg.height fits.height refl,
          number_at-object fs (codes "view") msg.view fits.view refl,
          number_at-object fs (codes "instance_id") msg.instance_id
              (omega (arith, fits.instance_id)) refl,
          text_or-object fs (codes "block_hash") [] msg.block_hash refl,
          text_at-object fs (codes "sender_id") msg.sender_id refl,
          number_or-object fs (codes "timestamp") now msg.timestamp fits.timestamp refl,
          text_or-object fs (codes "signature") [] msg.signature_hex refl,
          json.find-object fs (codes "block"),
          message_block-lookup_field msg.block fits.block,
        )
        (ap (λ n. some (record msg { instance_id = n; block = Option.map stored_form msg.block }))
          (mod-eq_of_lt fits.instance_id))
