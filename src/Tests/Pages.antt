-- ===== src/Tests/Pages.antt =====
-- The recomputation of a root on small proofs.
use blockchain_demo.Prelude.{◌≡◌, some, [], ◌∷◌, List, Bytes, replicate, bytes_eq}
use blockchain_demo.Encoding.Zeros.{zeros}
use blockchain_demo.Merkle.{MerkleProofItem, left, right, leaf_hash, verify_proof}
use blockchain_demo.Smt.{fold_siblings}
use blockchain_demo.Api.Trace.{
  Leads, root_of, merkle_recompute_steps, merkle_recompute_steps-Leads, smt_recompute_steps,
  smt_recompute_steps-fold_siblings,
}
use blockchain_demo.Tests.Toy.{toy, transfer}

abbrev proof : List MerkleProofItem
proof =
    record { position = left; sibling_hash = zeros 32 }
    ∷ record { position = right; sibling_hash = 1 ∷ zeros 31 }
    ∷ []

merkle_recompute_steps-Leads_example :
    Leads 0
      (leaf_hash transfer)
      (merkle_recompute_steps transfer proof).steps
      (merkle_recompute_steps transfer proof).computed_root
    × (verify_proof transfer proof (zeros 32)
        ≡ bytes_eq (merkle_recompute_steps transfer proof).computed_root (zeros 32))
merkle_recompute_steps-Leads_example = merkle_recompute_steps-Leads transfer proof (zeros 32)

abbrev siblings : List Bytes
siblings = replicate 256 (zeros 32)

smt_recompute_steps-fold_siblings_example :
    root_of (smt_recompute_steps (1 ∷ zeros 31) (zeros 32) siblings)
    ≡ some (fold_siblings (1 ∷ zeros 31) siblings 256 (zeros 32))
smt_recompute_steps-fold_siblings_example =
    smt_recompute_steps-fold_siblings (1 ∷ zeros 31) (zeros 32) siblings
