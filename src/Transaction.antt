-- ===== src/Transaction.antt =====
-- src/tx/transaction.cpp: a transaction, the texts that are signed and hashed, and its identifier.
pub mod Binding
pub mod Json
use blockchain_demo.Prelude.{
  ℕ, ◌||◌, Bool, true, false, [], ◌∷◌, ◌++◌, Option, some, Bytes, bytes_eq, if◌then◌else◌,
}
use blockchain_demo.Encoding.{decimal}
use blockchain_demo.Encoding.Fields.{bar}
use blockchain_demo.Crypto.{Sodium, sha256_hex, verify_detached_hex}

pub record Transaction : Type 0 where
  pub tx_id : Bytes
  pub type : Bytes
  pub from : Bytes
  pub to : Bytes
  pub amount : ℕ
  pub data_hash : Bytes
  pub nonce : ℕ
  pub timestamp : ℕ
  pub public_key_hex : Bytes
  pub signature_hex : Bytes

-- `SerializeTransactionBody`
unfoldable pub serialize_transaction_body : Transaction → Bytes
serialize_transaction_body tx =
    tx.type
    ++ (bar
        ∷ (tx.from
            ++ (bar
                ∷ (tx.to
                    ++ (bar
                        ∷ (decimal tx.amount
                            ++ (bar
                                ∷ (tx.data_hash
                                    ++ (bar
                                        ∷ (decimal tx.nonce
                                            ++ (bar
                                                ∷ (decimal tx.timestamp
                                                    ++ (bar ∷ tx.public_key_hex)))))))))))))

-- `SerializeTransactionFull`
unfoldable pub serialize_transaction_full : Transaction → Bytes
serialize_transaction_full tx = serialize_transaction_body tx ++ (bar ∷ tx.signature_hex)

-- `std::string::empty`
unfoldable pub is_empty : Bytes → Bool
is_empty [] = true
is_empty (c ∷ s) = false

module _ ⦃sodium : Sodium⦄ where
  -- `ComputeTransactionId`
  unfoldable pub compute_transaction_id : Transaction → Bytes
  compute_transaction_id tx = sha256_hex (serialize_transaction_full tx)

  -- `VerifyTransactionSignature`; `none` is an exception.
  unfoldable pub verify_transaction_signature : Transaction → Option Bool
  unfolding is_empty
  verify_transaction_signature tx =
      if is_empty tx.public_key_hex || is_empty tx.signature_hex
      then some false
      else verify_detached_hex (serialize_transaction_body tx) tx.signature_hex tx.public_key_hex
