-- ===== src/Tests/Pending.antt =====
-- A pool with one signed transfer.
use blockchain_demo.Prelude.{
  ◌≡◌, ◌≤◌, refl, [], ◌∷◌, true, false, some, Bytes, codes, length, arith, Always,
}
use blockchain_demo.Encoding.{bytes_to_hex, hex_to_bytes, decimal}
use blockchain_demo.Encoding.Zeros.{zeros}
use blockchain_demo.Crypto.{verify_detached_hex}
use blockchain_demo.Transaction.{
  Transaction, is_empty, serialize_transaction_body, serialize_transaction_full,
  verify_transaction_signature,
}
use blockchain_demo.HashTable.{new, index}
use blockchain_demo.HashTable.Hashing.{Key, string_key}
use blockchain_demo.Mempool.{Added, new_mempool, add_transaction, exists, remove_committed}
use blockchain_demo.Mempool.Pool.{IsPurged, new_mempool-IsPool, remove_committed-IsPurged}
use blockchain_demo.Mempool.Admission.{
  IsAnswered, add_transaction-IsAnswered, add_transaction-added,
}
use blockchain_demo.Tests.Toy.{toy, transfer}

instance abbrev by_length : Key Bytes
by_length = string_key length

abbrev signed : Transaction
signed = record transfer {
  tx_id = codes "t1";
  public_key_hex = bytes_to_hex (zeros 32);
  signature_hex = bytes_to_hex (zeros 64);
}

add_transaction-IsAnswered_example :
    Always (IsAnswered signed new_mempool) (add_transaction signed [] new_mempool)
add_transaction-IsAnswered_example =
    add_transaction-IsAnswered signed [] new_mempool new_mempool-IsPool

named : is_empty signed.tx_id ≡ false
unfolding is_empty
named = refl

unknown : exists signed.tx_id new_mempool ≡ false
unfolding exists new_mempool new index
unknown = refl

short : length (serialize_transaction_full signed) ≤ 16384
unfolding serialize_transaction_full serialize_transaction_body decimal bytes_to_hex
short = omega arith

valid : verify_transaction_signature signed ≡ some true
unfolding verify_transaction_signature verify_detached_hex bytes_to_hex hex_to_bytes
valid = refl

add_transaction-added_example :
    (r : Added) × (add_transaction signed [] new_mempool ≡ some r) × (r.added ≡ true)
add_transaction-added_example =
    add_transaction-added signed [] new_mempool new_mempool-IsPool named unknown short valid

remove_committed-IsPurged_example :
    IsPurged (signed ∷ []) new_mempool (remove_committed (signed ∷ []) new_mempool)
remove_committed-IsPurged_example =
    remove_committed-IsPurged (signed ∷ []) new_mempool new_mempool-IsPool
