-- ===== src/User/Write.antt =====
-- src/user/user_manager.cpp: what a registration writes.
use blockchain_demo.Prelude.{Bytes}
use blockchain_demo.Outcome.{Outcome, ◌>>=◌, attempt}
use blockchain_demo.Account.{AccountState}
use blockchain_demo.Storage.{Sqlite, put_account, commit}
use blockchain_demo.Storage.Schema.{UserRow, insert_user}

-- `AccountState{address, 1000, 0}`
abbrev pub initial_account : Bytes → AccountState
initial_account address = record { address = address; balance = 1000; nonce = 0 }

module _ {D : Type 0} ⦃sqlite : Sqlite D⦄ where
  -- the statements between `Begin` and `Commit`; `threw` has the database at the exception, and
  -- `done` the one after `COMMIT`.
  unfoldable pub write_user : UserRow → D → Outcome D
  unfolding put_account commit
  write_user row db =
      attempt db (sqlite.step (insert_user row) db)
      >>= (λ db1. attempt db1 (put_account db1 (initial_account row.address) 0))
      >>= λ db2. attempt db2 (commit db2)
