-- ===== src/Transaction/Json.antt =====
-- src/tx/transaction.cpp: the JSON form of a transaction.
use blockchain_demo.Prelude.{
  ◌≡◌, ◌<◌, ◌^◌, ◌&&◌, not, refl, List, [], ◌∷◌, Option, some, Bytes, codes, bytes_eq,
  if◌then◌else◌, ◌>>=◌,
}
use blockchain_demo.Json.{
  Nlohmann, text_at, text_or, number_or, text_at-object, text_or-object, text_or-missing,
  number_or-object,
}
use blockchain_demo.Crypto.{Sodium}
use blockchain_demo.Transaction.{Transaction, compute_transaction_id, is_empty}

-- The numbers of the transaction fit their 64 bits.
pub record Fits (tx : Transaction) : Type 0 where
  pub amount : tx.amount < 2 ^ 64
  pub nonce : tx.nonce < 2 ^ 64
  pub timestamp : tx.timestamp < 2 ^ 64

module _ ⦃sodium : Sodium⦄ where
  -- the end of `TransactionFromJson`, which fills a missing identifier
  unfoldable pub fill_id : Transaction → Transaction
  unfolding is_empty compute_transaction_id
  fill_id tx =
      if is_empty tx.tx_id && not (is_empty tx.signature_hex)
      then record tx { tx_id = compute_transaction_id tx }
      else tx

module _ {J : Type 0} ⦃json : Nlohmann J⦄ where
  abbrev fields_of : Transaction → List (Bytes × J)
  fields_of tx =
      (codes "tx_id", json.text tx.tx_id)
      ∷ (codes "type", json.text tx.type)
      ∷ (codes "from", json.text tx.from)
      ∷ (codes "to", json.text tx.to)
      ∷ (codes "amount", json.number tx.amount)
      ∷ (codes "data_hash", json.text tx.data_hash)
      ∷ (codes "nonce", json.number tx.nonce)
      ∷ (codes "timestamp", json.number tx.timestamp)
      ∷ (codes "public_key", json.text tx.public_key_hex)
      ∷ (codes "signature", json.text tx.signature_hex)
      ∷ []

  -- `TransactionToJson`
  unfoldable pub transaction_to_json : Transaction → J
  transaction_to_json tx = json.object (fields_of tx)

  module _ ⦃sodium : Sodium⦄ where
    -- `TransactionFromJson`
    unfoldable pub transaction_from_json : J → Option Transaction
    unfolding fill_id
    transaction_from_json j = do
      tx_id ← text_or j (codes "tx_id") []
      type ← text_at j (codes "type")
      from ← text_or j (codes "from") []
      to ← text_or j (codes "to") []
      amount ← number_or j (codes "amount") 0
      data_hash ← text_or j (codes "data_hash") []
      nonce ← number_or j (codes "nonce") 0
      timestamp ← number_or j (codes "timestamp") 0
      other_key ← text_or j (codes "public_key_hex") []
      public_key_hex ← text_or j (codes "public_key") other_key
      other_signature ← text_or j (codes "signature_hex") []
      signature_hex ← text_or j (codes "signature") other_signature
      some (
          fill_id (record {
            tx_id = tx_id;
            type = type;
            from = from;
            to = to;
            amount = amount;
            data_hash = data_hash;
            nonce = nonce;
            timestamp = timestamp;
            public_key_hex = public_key_hex;
            signature_hex = signature_hex;
          }))

module _ (J : Type 0) ⦃json : Nlohmann J⦄ ⦃sodium : Sodium⦄ where
  -- A transaction whose numbers fit their 64 bits survives its JSON form, its missing identifier filled
  -- in.
  pub transaction_from_json-transaction_to_json :
      (tx : Transaction)
      → Fits tx
      → transaction_from_json {J = J} (transaction_to_json tx) ≡ some (fill_id tx)
  unfolding transaction_from_json transaction_to_json bytes_eq
  transaction_from_json-transaction_to_json tx fits =
      let fs : List (Bytes × J) = fields_of tx in
      rw (
        text_or-object fs (codes "tx_id") [] tx.tx_id refl,
        text_at-object fs (codes "type") tx.type refl,
        text_or-object fs (codes "from") [] tx.from refl,
        text_or-object fs (codes "to") [] tx.to refl,
        number_or-object fs (codes "amount") 0 tx.amount fits.amount refl,
        text_or-object fs (codes "data_hash") [] tx.data_hash refl,
        number_or-object fs (codes "nonce") 0 tx.nonce fits.nonce refl,
        number_or-object fs (codes "timestamp") 0 tx.timestamp fits.timestamp refl,
        text_or-missing fs (codes "public_key_hex") [] refl,
        text_or-object fs (codes "public_key") [] tx.public_key_hex refl,
        text_or-missing fs (codes "signature_hex") [] refl,
        text_or-object fs (codes "signature") [] tx.signature_hex refl,
      )
