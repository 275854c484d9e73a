-- ===== src/Block/Json.antt =====
-- src/block/block.cpp: the JSON form of a block.
use blockchain_demo.Prelude.{
  ◌≡◌, ◌<◌, ◌^◌, ◌%◌, refl, List, [], ◌∷◌, map, Option, some, none, Bytes, codes, bytes_eq,
  if◌then◌else◌, ◌>>=◌, ap, arith,
}
use native.Mathlib.Nat.{mod-eq_of_lt}
use blockchain_demo.Json.{Nlohmann, text_at, number_at, text_at-object, number_at-object}
use blockchain_demo.Crypto.{Sodium}
use blockchain_demo.Transaction.{Transaction}
use blockchain_demo.Transaction.Json.{
  Fits, fill_id, transaction_to_json, transaction_from_json,
  transaction_from_json-transaction_to_json,
}
use blockchain_demo.Block.{Block, BlockHeader, NodeSignature}

module _ {J : Type 0} ⦃json : Nlohmann J⦄ where
  -- an element of `commit_signatures` in `BlockToJson`
  unfoldable pub signature_to_json : NodeSignature → J
  signature_to_json sig = json.object (
      (codes "node_id", json.text sig.node_id)
      ∷ (codes "public_key", json.text sig.public_key_hex)
      ∷ (codes "signature", json.text sig.signature_hex)
      ∷ [])

  abbrev pub header_fields : BlockHeader → List (Bytes × J)
  header_fields h =
      (codes "chain_id", json.text h.chain_id)
      ∷ (codes "height", json.number h.height)
      ∷ (codes "previous_block_hash", json.text h.previous_block_hash)
      ∷ (codes "tx_merkle_root", json.text h.tx_merkle_root)
      ∷ (codes "state_root", json.text h.state_root)
      ∷ (codes "timestamp", json.number h.timestamp)
      ∷ (codes "view", json.number h.view)
      ∷ (codes "instance_id", json.number h.instance_id)
      ∷ (codes "proposer_id", json.text h.proposer_id)
      ∷ (codes "block_hash", json.text h.block_hash)
      ∷ []

  abbrev pub block_fields : Block → List (Bytes × J)
  block_fields b =
      (codes "header", json.object (header_fields b.header))
      ∷ (codes "transactions", json.array (map transaction_to_json b.transactions))
      ∷ (codes "commit_signatures", json.array (map signature_to_json b.commit_signatures))
      ∷ []

  -- `BlockToJson`
  unfoldable pub block_to_json : Block → J
  block_to_json b = json.object (block_fields b)

  -- the first half of `BlockFromJson`
  unfoldable pub header_from_json : J → Option BlockHeader
  header_from_json h = do
    chain_id ← text_at h (codes "chain_id")
    height ← number_at h (codes "height")
    previous_block_hash ← text_at h (codes "previous_block_hash")
    tx_merkle_root ← text_at h (codes "tx_merkle_root")
    state_root ← text_at h (codes "state_root")
    timestamp ← number_at h (codes "timestamp")
    view ← number_at h (codes "view")
    instance_id ← number_at h (codes "instance_id")
    proposer_id ← text_at h (codes "proposer_id")
    block_hash ← text_at h (codes "block_hash")
    some (record {
      chain_id = chain_id;
      height = height;
      previous_block_hash = previous_block_hash;
      tx_merkle_root = tx_merkle_root;
      state_root = state_root;
      timestamp = timestamp;
      view = view;
      instance_id = instance_id % 2 ^ 32;
      proposer_id = proposer_id;
      block_hash = block_hash;
    })

  -- `j.value("transactions", array())`, and what the loop visits
  unfoldable pub transaction_values : J → Option (List J)
  transaction_values j =
      if json.is_object j
      then elim (json.find j (codes "transactions")) [
        | none ↦ some (json.elements (json.array []))
        | some v ↦ some (json.elements v)
      ]
      else none

  module _ ⦃sodium : Sodium⦄ where
    -- the loop of `BlockFromJson`
    unfoldable pub transactions_from_json : List J → Option (List Transaction)
    transactions_from_json [] = some []
    transactions_from_json (j ∷ js) = do
      tx ← transaction_from_json j
      txs ← transactions_from_json js
      some (tx ∷ txs)

    -- `BlockFromJson`
    unfoldable pub block_from_json : J → Option Block
    unfolding header_from_json transaction_values transactions_from_json
    block_from_json j = do
      h ← json.find j (codes "header")
      header ← header_from_json h
      values ← transaction_values j
      txs ← transactions_from_json values
      some (record { header = header; transactions = txs; commit_signatures = [] })

abbrev pub AllFit : List Transaction → Type 0
AllFit [] = Unit {0}
AllFit (tx ∷ txs) = Fits tx × AllFit txs

-- The numbers of the block fit their types.
pub record BlockFits (b : Block) : Type 0 where
  pub height : b.header.height < 2 ^ 64
  pub timestamp : b.header.timestamp < 2 ^ 64
  pub view : b.header.view < 2 ^ 64
  pub instance_id : b.header.instance_id < 2 ^ 32
  pub transactions : AllFit b.transactions

-- What a block is after a round trip: its signatures are gone, and missing identifiers filled in.
abbrev pub stored_form : ⦃sodium : Sodium⦄ → Block → Block
stored_form b = record b { transactions = map fill_id b.transactions; commit_signatures = [] }

module _ (J : Type 0) ⦃json : Nlohmann J⦄ ⦃sodium : Sodium⦄ where
  header_from_json-header_fields :
      (b : Block)
      → BlockFits b
      → header_from_json (json.object (header_fields b.header)) ≡ some b.header
  unfolding header_from_json bytes_eq
  header_from_json-header_fields b fits =
      let h = b.header in
      let fs : List (Bytes × J) = header_fields h in
      rw
        (
          text_at-object fs (codes "chain_id") h.chain_id refl,
          number_at-object fs (codes "height") h.height fits.height refl,
          text_at-object fs (codes "previous_block_hash") h.previous_block_hash refl,
          text_at-object fs (codes "tx_merkle_root") h.tx_merkle_root refl,
          text_at-object fs (codes "state_root") h.state_root refl,
          number_at-object fs (codes "timestamp") h.timestamp fits.timestamp refl,
          number_at-object fs (codes "view") h.view fits.view refl,
          number_at-object fs (codes "instance_id") h.instance_id (omega (arith, fits.instance_id))
              refl,
          text_at-object fs (codes "proposer_id") h.proposer_id refl,
          text_at-object fs (codes "block_hash") h.block_hash refl,
        )
        (ap (λ n. some (record h { instance_id = n })) (mod-eq_of_lt fits.instance_id))

  transactions_from_json-map :
      (txs : List Transaction)
      → AllFit txs
      → transactions_from_json {J = J} (map transaction_to_json txs) ≡ some (map fill_id txs)
  unfolding transactions_from_json
  transactions_from_json-map [] h = refl
  transactions_from_json-map (tx ∷ txs) h =
      rw (transaction_from_json-transaction_to_json J tx h.0, transactions_from_json-map txs h.1)

  transaction_values-block_fields :
      (b : Block)
      → transaction_values (json.object (block_fields b))
        ≡ some (map transaction_to_json b.transactions)
  unfolding transaction_values bytes_eq
  transaction_values-block_fields b = rw (
    json.is_object-object (block_fields b),
    json.find-object (block_fields b) (codes "transactions"),
    json.elements-array (map transaction_to_json b.transactions),
  )

  -- A block whose numbers fit their types comes back from its JSON form without its commit
  -- signatures, and with the missing identifiers of its transactions filled in.
  pub block_from_json-block_to_json :
      (b : Block) → BlockFits b → block_from_json {J = J} (block_to_json b) ≡ some (stored_form b)
  unfolding block_from_json block_to_json bytes_eq
  block_from_json-block_to_json b fits = rw (
    json.find-object (block_fields b) (codes "header"),
    header_from_json-header_fields b fits,
    transaction_values-block_fields b,
    transactions_from_json-map b.transactions fits.transactions,
  )
