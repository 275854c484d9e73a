-- ===== src/User/Added.antt =====
-- src/user/user_manager.cpp: what the statements of a registration add to the tables.
use blockchain_demo.Prelude.{
  ◌≡◌, sym, ◌∙◌, ap, List, [], ◌∷◌, ◌++◌, false, none, some, bytes_eq, bytes_eq_refl, if◌then◌else◌,
  arith, Bool-cases, inl, inr, none-ne-some, eq_of_some,
}
use blockchain_demo.Outcome.{AtEnd, IfSome, AtEnd-bind, AtEnd-attempt}
use blockchain_demo.Account.{encode_account_state}
use blockchain_demo.Storage.{Sqlite, put_account, commit}
use blockchain_demo.Storage.Schema.{
  Tables, UserRow, effect, insert_user, is_taken, add_user, put_text, user_by_name,
}
use blockchain_demo.User.Write.{write_user, initial_account}

-- The tables after a registration.
abbrev pub with_user : UserRow → Tables → Tables
with_user row t = record (add_user row t) {
  accounts =
      put_text row.address
        (record {
          balance = 1000;
          nonce = 0;
          state_value = encode_account_state (initial_account row.address);
          updated_height = 0;
        })
        t.accounts;
}

-- A name that is not taken belongs to the row that is added.
pub user_by_name-snoc :
    (row added : UserRow) (users : List UserRow)
    → is_taken row users ≡ false
    → added.username ≡ row.username
    → user_by_name row.username (users ++ (added ∷ [])) ≡ some added
user_by_name-snoc row added [] h e = rw (e, bytes_eq_refl row.username)
user_by_name-snoc row added (user ∷ users) h e =
    elim (Bool-cases (bytes_eq user.username row.username)) [
      | inl same ↦ ground arith
      | inr other ↦ rw other (user_by_name-snoc row added users (ground arith) e)
    ]

insert-cases :
    (row : UserRow) (t t' : Tables)
    → (if is_taken row t.users then none else some (add_user row t)) ≡ some t'
    → (is_taken row t.users ≡ false) × (t' ≡ add_user row t)
insert-cases row t t' e = elim (Bool-cases (is_taken row t.users)) [
  | inl taken ↦ absurd (none-ne-some (rw taken at e))
  | inr free ↦ (free, sym (eq_of_some (rw free at e)))
]

module _ {D : Type 0} ⦃sqlite : Sqlite D⦄ where
  record IsInserted (row : UserRow) (t : Tables) (db : D) : Type 0 where
    fresh : is_taken row t.users ≡ false
    inserted : sqlite.contents db ≡ add_user row t

  pub record IsAdded (row : UserRow) (t : Tables) (db : D) : Type 0 where
    pub fresh : is_taken row t.users ≡ false
    pub added : sqlite.contents db ≡ with_user row t

  insert_user-IsInserted :
      (row : UserRow) (db : D)
      → IfSome (IsInserted row (sqlite.contents db)) (sqlite.step (insert_user row) db)
  unfolding effect
  insert_user-IsInserted row db = record {
    given = λ db' e.
        let (free, now) =
          insert-cases row (sqlite.contents db) _ (sqlite.contents-step _ db db' e) in
        record { fresh = free; inserted = now };
  }

  put_account-IsAdded :
      (row : UserRow) (t : Tables) (db : D)
      → IsInserted row t db
      → IfSome (IsAdded row t) (put_account db (initial_account row.address) 0)
  unfolding put_account effect
  put_account-IsAdded row t db h = record {
    given = λ db' e. record {
      fresh = h.fresh;
      added =
          sym (eq_of_some (sqlite.contents-step _ db db' e))
          ∙ ap
              (λ (u : Tables). record u {
                accounts =
                    put_text row.address
                      (record {
                        balance = 1000;
                        nonce = 0;
                        state_value = encode_account_state (initial_account row.address);
                        updated_height = 0;
                      })
                      u.accounts;
              })
              h.inserted;
    };
  }

  pub write_user-IsAdded :
      (row : UserRow) (db : D) → AtEnd (IsAdded row (sqlite.contents db)) (write_user row db)
  unfolding write_user commit
  write_user-IsAdded row db =
      AtEnd-bind _ _
        (λ db2 h2. AtEnd-attempt db2 _ (record {
          given = λ db3 e. record {
            fresh = h2.fresh;
            added = sqlite.contents-commit db2 db3 e ∙ h2.added;
          };
        }))
        (AtEnd-bind _ _
          (λ db1 h1. AtEnd-attempt db1 _ (put_account-IsAdded row (sqlite.contents db) db1 h1))
          (AtEnd-attempt db _ (insert_user-IsInserted row db)))
