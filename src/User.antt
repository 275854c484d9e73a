-- ===== src/User.antt =====
-- src/user/user_manager.cpp: registration and login. The strings of the exceptions are not modelled;
-- an exception is `threw`, with the state that it leaves.
pub mod Write
pub mod Added
pub mod Registered
use blockchain_demo.Prelude.{
  ℕ, suc, ◌+◌, ◌*◌, ◌%◌, ◌^◌, Bool, true, false, List, [], ◌∷◌, Option, none, some, Bytes, length,
  take, ltb, if◌then◌else◌, ◌≡◌, ◌>>=◌,
}
use blockchain_demo.Outcome.{Outcome, done, threw}
use blockchain_demo.HashTable.{Table, new, put, contains}
use blockchain_demo.HashTable.Hashing.{Key}
use blockchain_demo.Crypto.{Sodium, sha256_hex, encrypt_secret, decrypt_secret}
use blockchain_demo.Storage.{Sqlite, begin, commit, rollback, put_account}
use blockchain_demo.Storage.Schema.{
  UserRow, SessionRow, insert_user, replace_session, user_by_name, user_by_address,
}
use Write.{write_user}

pub record UserRecord : Type 0 where
  pub user_id : ℕ
  pub username : Bytes
  pub address : Bytes
  pub public_key_hex : Bytes
  pub private_key_hex : Bytes

pub record LoginResult : Type 0 where
  pub token : Bytes
  pub user : UserRecord

-- The members of `UserManager`, with the database behind `storage_`.
pub record UserManager (D : Type 0) : Type 0 where
  pub storage : D
  pub username_index : Table Bytes ℕ
  pub address_index : Table Bytes ℕ

-- `crypto_pwhash_str` with the randomness that it draws, and `crypto_pwhash_str_verify`, as
-- `PasswordHash` and `PasswordVerify` call them; `none` is the exception.
pub record Hashing : Type 0 where
  pub hash_str : Bytes → Bytes → Option Bytes
  pub verify : Bytes → Bytes → Bool
  pub verify-hash_str :
      (seed password hash : Bytes)
      → hash_str seed password ≡ some hash
      → verify hash password ≡ true

-- What a call draws or reads from outside: the key pair of `GenerateEd25519KeyPair`, the randomness of
-- `PasswordHash`, the salt and the nonce of `EncryptSecret`, the token of `RandomTokenHex`, the time.
pub record Draws : Type 0 where
  pub public_key_hex : Bytes
  pub private_key_hex : Bytes
  pub seed : Bytes
  pub salt : Bytes
  pub nonce : Bytes
  pub token : Bytes
  pub now : ℕ

-- A returned value, or an exception, with the state that is left.
pub data Returned (S A : Type 0) : Type 0 where
  returned : A → S → Returned S A
  raised : S → Returned S A

-- `UserManager`
unfoldable pub new_user_manager : {D : Type 0} → D → UserManager D
unfolding new
new_user_manager db = record { storage = db; username_index = new 64; address_index = new 64 }

-- the columns of a new user
unfoldable pub user_row : Bytes → Bytes → Bytes → Bytes → Bytes → ℕ → UserRow
user_row username password_hash address public_key encrypted_pk now = record {
  user_id = 0;
  username = username;
  password_hash = password_hash;
  address = address;
  public_key = public_key;
  private_key_encrypted = encrypted_pk;
  created_at = now;
}

-- the columns of a new session, which ends after a day
unfoldable pub session_of : Draws → UserRecord → SessionRow
session_of draws user = record {
  user_id = user.user_id;
  created_at = draws.now;
  expires_at = (draws.now + 24 * 60 * 60 * 1000) % 2 ^ 64;
}

-- the row of `GetByAddress` as a record: the field for the private key holds the encrypted text.
abbrev pub record_of : Bytes → Option UserRow → Option UserRecord
record_of address none = none
record_of address (some row) = some (record {
  user_id = row.user_id;
  username = row.username;
  address = address;
  public_key_hex = row.public_key;
  private_key_hex = row.private_key_encrypted;
})

-- the two texts of a registration; `none` is an exception.
unfoldable pub secrets :
    ⦃sodium : Sodium⦄ ⦃hashing : Hashing⦄ → Draws → Bytes → Bytes → Option (Bytes × Bytes)
unfolding encrypt_secret
secrets ⦃hashing = hashing⦄ draws password private_key_hex = do
  password_hash ← hashing.hash_str draws.seed password
  encrypted_pk ← encrypt_secret draws.salt draws.nonce private_key_hex password
  some (password_hash, encrypted_pk)

module _ {D : Type 0} ⦃sqlite : Sqlite D⦄ where
  module _ ⦃key : Key Bytes⦄ where
    -- the two indexes after the `COMMIT`; `none` would be a `Put` that does not return.
    unfoldable pub index_user : UserRecord → UserManager D → Option (UserManager D)
    unfolding put
    index_user user m = do
      names ← put m.username_index user.username user.user_id
      addresses ← put m.address_index user.address user.user_id
      some (record m { username_index = names; address_index = addresses })

    -- the end of the `try`, and its handler
    unfoldable pub finish :
        UserRecord → UserManager D → Outcome D → Returned (UserManager D) UserRecord
    unfolding index_user rollback
    finish user m (threw db) = raised (record m { storage = rollback db })
    finish user m (done db) = elim (index_user user (record m { storage = db })) [
      | none ↦ raised (record m { storage = db })
      | some m1 ↦ returned user m1
    ]

    -- `Begin` and what follows it; the new row gets the identifier `next_user_id`.
    unfoldable pub insert :
        UserRow → Bytes → UserManager D → Option D → Returned (UserManager D) UserRecord
    unfolding write_user finish
    insert row private_key_hex m none = raised m
    insert row private_key_hex m (some db) =
        let user : UserRecord = record {
          user_id = (sqlite.contents db).next_user_id;
          username = row.username;
          address = row.address;
          public_key_hex = row.public_key;
          private_key_hex = private_key_hex;
        } in
        finish user m (write_user row db)

    module _ ⦃sodium : Sodium⦄ ⦃hashing : Hashing⦄ (draws : Draws) where
      -- the common part of both registrations, from `PasswordHash` on
      unfoldable pub enroll :
          Bytes
          → Bytes
          → Bytes
          → Bytes
          → Bytes
          → UserManager D
          → Returned (UserManager D) UserRecord
      unfolding encrypt_secret user_row begin insert
      enroll username password address public_key_hex private_key_hex m =
          elim (secrets draws password private_key_hex) [
            | none ↦ raised m
            | some (password_hash, encrypted_pk) ↦
                insert
                  (user_row username password_hash address public_key_hex encrypted_pk draws.now)
                  private_key_hex m (begin m.storage)
          ]

      -- `Register`
      unfoldable pub register : Bytes → Bytes → UserManager D → Returned (UserManager D) UserRecord
      unfolding contains sha256_hex enroll
      register username password m =
          if ltb (length username) 3
          then raised m
          else if ltb (length password) 6
          then raised m
          else if contains m.username_index username
          then raised m
          else enroll username password (take 40 (sha256_hex draws.public_key_hex))
              draws.public_key_hex draws.private_key_hex m

      -- `RegisterWithKey`
      unfoldable pub register_with_key :
          Bytes
          → Bytes
          → Bytes
          → Bytes
          → Bytes
          → UserManager D
          → Returned (UserManager D) UserRecord
      unfolding enroll
      register_with_key username password address public_key_hex private_key_hex m =
          if ltb (length username) 3
          then raised m
          else if ltb (length password) 6
          then raised m
          else enroll username password address public_key_hex private_key_hex m

  module _ ⦃sodium : Sodium⦄ ⦃hashing : Hashing⦄ (draws : Draws) where
    -- the new session of a user whose password was right
    unfoldable pub open_session : UserRecord → UserManager D → Returned (UserManager D) LoginResult
    open_session user m =
        elim (sqlite.step (replace_session draws.token (session_of draws user)) m.storage) [
          | none ↦ raised m
          | some db ↦
              returned (record { token = draws.token; user = user }) (record m { storage = db })
        ]

    -- `Login` with the row that the query has found
    unfoldable pub log_in_row :
        Option UserRow → Bytes → Bytes → UserManager D → Returned (UserManager D) LoginResult
    unfolding decrypt_secret open_session
    log_in_row none username password m = raised m
    log_in_row (some row) username password m =
        if hashing.verify row.password_hash password
        then elim (decrypt_secret row.private_key_encrypted password) [
          | none ↦ raised m
          | some private_key_hex ↦
              open_session
                (record {
                  user_id = row.user_id;
                  username = username;
                  address = row.address;
                  public_key_hex = row.public_key;
                  private_key_hex = private_key_hex;
                })
                m
        ]
        else raised m

    -- `Login`
    unfoldable pub login : Bytes → Bytes → UserManager D → Returned (UserManager D) LoginResult
    unfolding log_in_row
    login username password m =
        log_in_row (user_by_name username (sqlite.contents m.storage).users) username password m

  -- `GetByAddress`
  unfoldable pub get_by_address : Bytes → UserManager D → Option UserRecord
  get_by_address address m =
      record_of address (user_by_address address (sqlite.contents m.storage).users)
