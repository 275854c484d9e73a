-- ===== src/Transaction/Binding.antt =====
-- src/tx/transaction.cpp: what the signed text and the identifier determine.
use blockchain_demo.Prelude.{◌≡◌, ◌∷◌, ◌++◌, Bytes, append_assoc}
use blockchain_demo.Encoding.{decimal}
use blockchain_demo.Encoding.Decimal.{decimal-injective}
use blockchain_demo.Encoding.Fields.{bar, LacksBar, split_at_bar, decimal-LacksBar}
use blockchain_demo.Transaction.{Transaction, serialize_transaction_body}

-- No text field holds the separator.
pub record IsPlain (tx : Transaction) : Type 0 where
  pub type : LacksBar tx.type
  pub from : LacksBar tx.from
  pub to : LacksBar tx.to
  pub data_hash : LacksBar tx.data_hash
  pub public_key : LacksBar tx.public_key_hex

-- The fields that are signed.
pub record SameBody (a b : Transaction) : Type 0 where
  pub type : a.type ≡ b.type
  pub from : a.from ≡ b.from
  pub to : a.to ≡ b.to
  pub amount : a.amount ≡ b.amount
  pub data_hash : a.data_hash ≡ b.data_hash
  pub nonce : a.nonce ≡ b.nonce
  pub timestamp : a.timestamp ≡ b.timestamp
  pub public_key : a.public_key_hex ≡ b.public_key_hex

-- Two transactions without separators in their text fields that have one signed text agree in every
-- signed field.
pub serialize_transaction_body-injective :
    (a b : Transaction)
    → IsPlain a
    → IsPlain b
    → serialize_transaction_body a ≡ serialize_transaction_body b
    → SameBody a b
unfolding serialize_transaction_body
serialize_transaction_body-injective a b pa pb e =
    let (type, e1) = split_at_bar a.type b.type _ _ pa.type pb.type e in
    let (from, e2) = split_at_bar a.from b.from _ _ pa.from pb.from e1 in
    let (to, e3) = split_at_bar a.to b.to _ _ pa.to pb.to e2 in
    let (amount, e4) =
      split_at_bar (decimal a.amount) (decimal b.amount) _ _ (decimal-LacksBar a.amount)
        (decimal-LacksBar b.amount) e3 in
    let (hash, e5) = split_at_bar a.data_hash b.data_hash _ _ pa.data_hash pb.data_hash e4 in
    let (nonce, e6) =
      split_at_bar (decimal a.nonce) (decimal b.nonce) _ _ (decimal-LacksBar a.nonce)
        (decimal-LacksBar b.nonce) e5 in
    let (time, e7) =
      split_at_bar (decimal a.timestamp) (decimal b.timestamp) _ _ (decimal-LacksBar a.timestamp)
        (decimal-LacksBar b.timestamp) e6 in
    record {
      type = type;
      from = from;
      to = to;
      amount = decimal-injective a.amount b.amount amount;
      data_hash = hash;
      nonce = decimal-injective a.nonce b.nonce nonce;
      timestamp = decimal-injective a.timestamp b.timestamp time;
      public_key = e7;
    }

-- A separator inside a field moves freely to its neighbour: the signed text of a transfer from
-- `from|mid` to `to` is that of a transfer from `from` to `mid|to`.
pub serialize_transaction_body-ambiguous :
    (tx : Transaction) (from mid to : Bytes)
    → serialize_transaction_body (record tx { from = from ++ (bar ∷ mid); to = to })
      ≡ serialize_transaction_body (record tx { from = from; to = mid ++ (bar ∷ to) })
unfolding serialize_transaction_body
serialize_transaction_body-ambiguous tx from mid to = simp append_assoc
