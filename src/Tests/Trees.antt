-- ===== src/Tests/Trees.antt =====
-- Merkle trees and sparse Merkle trees over a few entries.
use blockchain_demo.Prelude.{
  ◌≡◌, ◌⊎◌, refl, [], ◌∷◌, ◌++◌, true, some, List, Bytes, map, arith, bytes_eq_refl,
}
use blockchain_demo.Encoding.{decimal, zero_hash}
use blockchain_demo.Encoding.Zeros.{zero_hash-IsHash, zeros}
use blockchain_demo.Crypto.Collision.{Collision}
use blockchain_demo.Transaction.{
  Transaction, serialize_transaction_full, serialize_transaction_body,
}
use blockchain_demo.Merkle.{MerkleProofItem, right, generate_proof, compute_root, verify_proof}
use blockchain_demo.Merkle.Proof.{
  verify_proof-generate_proof, verify_messages, verify_proof_binding,
}
use blockchain_demo.Merkle.Root.{root_messages, compute_root_binding}
use blockchain_demo.Merkle.Duplicate.{compute_root_twice}
use blockchain_demo.Tests.Toy.{toy, transfer, resigned}

verify_proof-generate_proof_example :
    (proof : List MerkleProofItem) × (root : Bytes) × (generate_proof
        (transfer ∷ resigned ∷ transfer ∷ [])
        2
      ≡ some proof)
    × (compute_root (transfer ∷ resigned ∷ transfer ∷ []) ≡ some root)
    × (verify_proof transfer proof root ≡ true)
verify_proof-generate_proof_example =
    verify_proof-generate_proof (transfer ∷ resigned ∷ transfer ∷ []) 2 transfer refl

abbrev beside : List MerkleProofItem
beside = record { position = right; sibling_hash = zero_hash } ∷ []

abbrev two_leaves : Bytes
two_leaves = 65 ∷ zeros 31

accepted : (tx : Transaction) → verify_proof tx beside two_leaves ≡ true
unfolding verify_proof zero_hash
accepted tx = bytes_eq_refl two_leaves

verify_proof_binding_example :
    (serialize_transaction_full transfer ≡ serialize_transaction_full resigned)
    ⊎ Collision (verify_messages transfer beside) (verify_messages resigned beside)
verify_proof_binding_example =
    verify_proof_binding transfer resigned beside beside two_leaves (refl, tt)
      (zero_hash-IsHash, tt) (zero_hash-IsHash, tt) (accepted transfer) (accepted resigned)

same_root : compute_root (transfer ∷ []) ≡ compute_root (resigned ∷ [])
unfolding compute_root serialize_transaction_full serialize_transaction_body decimal
same_root = refl

compute_root_binding_example :
    (map serialize_transaction_full (transfer ∷ [])
      ≡ map serialize_transaction_full (resigned ∷ []))
    ⊎ Collision (root_messages (transfer ∷ [])) (root_messages (resigned ∷ []))
compute_root_binding_example = compute_root_binding (transfer ∷ []) (resigned ∷ []) refl same_root

compute_root_twice_example :
    compute_root ((transfer ∷ resigned ∷ []) ++ (transfer ∷ []))
    ≡ compute_root ((transfer ∷ resigned ∷ []) ++ (transfer ∷ transfer ∷ []))
compute_root_twice_example =
    compute_root_twice (transfer ∷ resigned ∷ []) transfer refl (omega arith)
