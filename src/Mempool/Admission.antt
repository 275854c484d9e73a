-- ===== src/Mempool/Admission.antt =====
-- src/tx/mempool.cpp: `AddTransaction` on every branch.
use blockchain_demo.Prelude.{
  ℕ, ◌-◌, ◌≤◌, ◌≡◌, refl, sym, subst, ap, ◌∙◌, Bool, true, false, ◌||◌, [], ◌∷◌, ◌++◌, Option, some,
  Bytes, bytes_eq, length, ltb, arith, if_cases, option_cases, eq_of_some, none-ne-some, Always,
}
use blockchain_demo.Crypto.{Sodium}
use blockchain_demo.Transaction.{
  Transaction, is_empty, serialize_transaction_full, verify_transaction_signature,
}
use blockchain_demo.HashTable.{Table, put, contains}
use blockchain_demo.HashTable.Hashing.{Key}
use blockchain_demo.HashTable.Refinement.{Models, update}
use blockchain_demo.HashTable.Growth.{put-Yields}
use blockchain_demo.Mempool.{Mempool, Added, add_transaction, exists}
use blockchain_demo.Mempool.Index.{has, has-append, is_some, is_some-update}
use blockchain_demo.Mempool.Pool.{IsPool, append-Unique, exists-has}

module _ ⦃key : Key Bytes⦄ where
  module _ ⦃sodium : Sodium⦄ where
    -- The transaction was acceptable, and stands last in a sound pool.
    pub record IsAdmitted (tx : Transaction) (m : Mempool) (r : Added) : Type 0 where
      pub named : is_empty tx.tx_id ≡ false
      pub unknown : exists tx.tx_id m ≡ false
      pub short : length (serialize_transaction_full tx) ≤ 16384
      pub valid : verify_transaction_signature tx ≡ some true
      pub txs : r.pool.txs ≡ m.txs ++ (tx ∷ [])
      pub sound : IsPool r.pool
      pub knows : (q : Bytes) → exists q r.pool ≡ (bytes_eq q tx.tx_id || exists q m)

    -- Either the transaction is admitted, or the pool is as it was.
    pub record IsAnswered (tx : Transaction) (m : Mempool) (r : Added) : Type 0 where
      pub admitted : r.added ≡ true → IsAdmitted tx m r
      pub refused : r.added ≡ false → r.pool ≡ m

    refused_as_it_was :
        (tx : Transaction) (m : Mempool) (error : Bytes)
        → IsAnswered tx m (record { pool = m; added = false; error = error })
    refused_as_it_was tx m error = record { admitted = λ h. cc; refused = λ _. refl }

    grown-IsAdmitted :
        (tx : Transaction) (m : Mempool) (error : Bytes) (t : Table Bytes ℕ) (n : ℕ) (p : IsPool m)
        → is_empty tx.tx_id ≡ false
        → exists tx.tx_id m ≡ false
        → length (serialize_transaction_full tx) ≤ 16384
        → verify_transaction_signature tx ≡ some true
        → Models t (update p.covered.reads tx.tx_id (some n))
        → IsAdmitted tx m (record {
          pool = record { txs = m.txs ++ (tx ∷ []); index = t };
          added = true;
          error = error;
        })
    grown-IsAdmitted tx m error t n p named unknown short valid models =
        let exact : (q : Bytes)
            → is_some (update p.covered.reads tx.tx_id (some n) q) ≡ has q (m.txs ++ (tx ∷ [])) =
          λ q.
            is_some-update p.covered.reads tx.tx_id q n
            ∙ (ap (λ b. bytes_eq q tx.tx_id || b) (p.covered.exact q)
                ∙ sym (has-append q m.txs tx)) in
        let sound : IsPool (record { txs = m.txs ++ (tx ∷ []); index = t }) = record {
          covered = record {
            reads = update p.covered.reads tx.tx_id (some n);
            models = models;
            exact = exact;
          };
          unique = append-Unique m.txs tx (sym (exists-has tx.tx_id m p) ∙ unknown) p.unique;
        } in
        record {
          named = named;
          unknown = unknown;
          short = short;
          valid = valid;
          txs = refl;
          sound = sound;
          knows = λ q.
              exists-has q (record { txs = m.txs ++ (tx ∷ []); index = t }) sound
              ∙ (has-append q m.txs tx
                  ∙ ap (λ b. bytes_eq q tx.tx_id || b) (sym (exists-has q m p)));
        }

    short_enough : (n : ℕ) → ltb 16384 n ≡ false → n ≤ 16384
    short_enough n h = ground arith

    -- `AddTransaction` either refuses and leaves the pool as it was, or admits a transaction that has
    -- an identifier, is not pending yet, takes at most 16384 bytes and carries a valid signature; the
    -- pool then holds it last, is sound, and knows its identifier besides those known before.
    pub add_transaction-IsAnswered :
        (tx : Transaction) (error : Bytes) (m : Mempool)
        → IsPool m
        → Always (IsAnswered tx m) (add_transaction tx error m)
    unfolding add_transaction exists
    add_transaction-IsAnswered tx error m p =
        let P : Option Added → Type 0 = Always (IsAnswered tx m) in
        if_cases P (is_empty tx.tx_id) _ _ (λ _. refused_as_it_was tx m _)
          (λ named.
            if_cases P (contains m.index tx.tx_id) _ _ (λ _. refused_as_it_was tx m _)
              (λ unknown.
                if_cases P (ltb 16384 (length (serialize_transaction_full tx))) _ _
                  (λ _. refused_as_it_was tx m _)
                  (λ short.
                    option_cases P (verify_transaction_signature tx) _ _ (λ _. tt)
                      (λ valid v.
                        if_cases P valid _ _
                          (λ is_valid.
                            let n = length (m.txs ++ (tx ∷ [])) - 1 in
                            let y =
                              put-Yields m.index p.covered.reads tx.tx_id n p.covered.models in
                            option_cases P (put m.index tx.tx_id n) _ _ (λ _. tt)
                              (λ t got. record {
                                admitted = λ _.
                                    grown-IsAdmitted tx m error t n p named unknown
                                      (short_enough (length (serialize_transaction_full tx)) short)
                                      (v ∙ ap some is_valid)
                                      (subst
                                        (λ x. Models x (update p.covered.reads tx.tx_id (some n)))
                                        (eq_of_some (sym y.returned ∙ got)) y.models);
                                refused = λ h. cc;
                              }))
                          (λ _. refused_as_it_was tx m _)))))

    clash : {b : Bool} → b ≡ true → b ≡ false → ⊥
    clash t f = cc

    -- `AddTransaction` admits every transaction that has an identifier, is not pending yet, takes at
    -- most 16384 bytes and carries a valid signature, whatever its nonce and however many transactions
    -- are pending.
    pub add_transaction-added :
        (tx : Transaction) (error : Bytes) (m : Mempool)
        → IsPool m
        → is_empty tx.tx_id ≡ false
        → exists tx.tx_id m ≡ false
        → length (serialize_transaction_full tx) ≤ 16384
        → verify_transaction_signature tx ≡ some true
        → (r : Added) × (add_transaction tx error m ≡ some r) × (r.added ≡ true)
    unfolding add_transaction exists
    add_transaction-added tx error m p named unknown short valid =
        let P : Option Added → Type 0 = λ o. (r : Added) × (o ≡ some r) × (r.added ≡ true) in
        let not_long : ltb 16384 (length (serialize_transaction_full tx)) ≡ false = ground arith in
        if_cases P (is_empty tx.tx_id) _ _ (λ t. absurd (clash t named))
          (λ _.
            if_cases P (contains m.index tx.tx_id) _ _ (λ t. absurd (clash t unknown))
              (λ _.
                if_cases P (ltb 16384 (length (serialize_transaction_full tx))) _ _
                  (λ t. absurd (clash t not_long))
                  (λ _.
                    option_cases P (verify_transaction_signature tx) _ _
                      (λ n. absurd (none-ne-some (sym n ∙ valid)))
                      (λ b v.
                        if_cases P b _ _
                          (λ _.
                            let n = length (m.txs ++ (tx ∷ [])) - 1 in
                            let y =
                              put-Yields m.index p.covered.reads tx.tx_id n p.covered.models in
                            option_cases P (put m.index tx.tx_id n) _ _
                              (λ no. absurd (none-ne-some (sym no ∙ y.returned)))
                              (λ t _. (_, refl, refl)))
                          (λ f. absurd (clash (eq_of_some (sym v ∙ valid)) f))))))
