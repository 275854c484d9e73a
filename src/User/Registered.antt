-- ===== src/User/Registered.antt =====
-- src/user/user_manager.cpp: a registered user has an account and can log in.
use blockchain_demo.Prelude.{
  ◌≡◌, ◌≤◌, refl, sym, ◌∙◌, ap, subst, false, Option, none, some, Bytes, bytes_eq_refl, length,
  take, All, arith, Option-cases, inl, inr,
}
use blockchain_demo.Outcome.{Outcome, done, threw, of_AtEnd}
use blockchain_demo.HashTable.Hashing.{Key}
use blockchain_demo.Encoding.{IsByte}
use blockchain_demo.Crypto.{Sodium, sha256_hex, encrypt_secret}
use blockchain_demo.Crypto.Secret.{decrypt-encrypt_secret}
use blockchain_demo.Storage.{Sqlite, account_of, get_account, begin}
use blockchain_demo.Storage.Schema.{Tables, UserRow, replace_session, is_taken, user_by_name}
use blockchain_demo.User.{
  UserManager, UserRecord, Draws, Hashing, returned, user_row, secrets, index_user, finish, insert,
  enroll, register, register_with_key, log_in_row, login, session_of, open_session,
}
use blockchain_demo.User.Write.{write_user, initial_account}
use blockchain_demo.User.Added.{with_user, user_by_name-snoc, write_user-IsAdded}

module _ ⦃sodium : Sodium⦄ ⦃hashing : Hashing⦄ where
  secrets-cases :
      (draws : Draws) (password sk ph enc : Bytes)
      → secrets draws password sk ≡ some (ph, enc)
      → (hashing.hash_str draws.seed password ≡ some ph)
        × (encrypt_secret draws.salt draws.nonce sk password ≡ some enc)
  unfolding secrets
  secrets-cases draws password sk ph enc e =
      elim (Option-cases (hashing.hash_str draws.seed password)) [
        | inl failed ↦ ground arith
        | inr (h, hashed) ↦
            elim (Option-cases (encrypt_secret draws.salt draws.nonce sk password)) [
              | inl failed ↦ ground arith
              | inr (c, sealed) ↦ (ground arith, ground arith)
            ]
      ]

module _ {D : Type 0} ⦃sqlite : Sqlite D⦄ ⦃key : Key Bytes⦄ where
  -- What a registration has done, beside the texts that it made.
  pub record IsInsertedAs (row : UserRow) (sk : Bytes) (m : UserManager D) (user : UserRecord)
      (m1 : UserManager D) : Type 0 where
    pub fresh : is_taken row (sqlite.contents m.storage).users ≡ false
    pub tables : sqlite.contents m1.storage ≡ with_user row (sqlite.contents m.storage)
    pub user_id : user.user_id ≡ (sqlite.contents m.storage).next_user_id
    pub username : user.username ≡ row.username
    pub address : user.address ≡ row.address
    pub public_key_hex : user.public_key_hex ≡ row.public_key
    pub private_key_hex : user.private_key_hex ≡ sk

  index_user-storage :
      (user : UserRecord) (m m1 : UserManager D)
      → index_user user m ≡ some m1
      → m1.storage ≡ m.storage
  unfolding index_user
  index_user-storage user m m1 e = ground arith

  finish-cases :
      (user u : UserRecord) (m m1 : UserManager D) (o : Outcome D)
      → finish user m o ≡ returned u m1
      → (db : D) × (o ≡ done db) × (u ≡ user) × (m1.storage ≡ db)
  unfolding finish
  finish-cases user u m m1 (threw db) e = cc
  finish-cases user u m m1 (done db) e =
      elim (Option-cases (index_user user (record m { storage = db }))) [
        | inl stuck ↦ ground arith
        | inr (m2, indexed) ↦ (
          db,
          refl,
          ground arith,
          ground (arith, index_user-storage user (record m { storage = db }) m2 indexed),
        )
      ]

  insert-IsInsertedAs :
      (row : UserRow) (sk : Bytes) (m m1 : UserManager D) (u : UserRecord) (o : Option D)
      → begin m.storage ≡ o
      → insert row sk m o ≡ returned u m1
      → IsInsertedAs row sk m u m1
  unfolding insert begin
  insert-IsInsertedAs row sk m m1 u none b e = cc
  insert-IsInsertedAs row sk m m1 u (some db) b e =
      let (db3, wrote, same, stored) = finish-cases _ u m m1 (write_user row db) e in
      let added = of_AtEnd _ (write_user-IsAdded row db) wrote in
      let before = sqlite.contents-begin_immediate m.storage db b in
      record {
        fresh = ap (λ (t : Tables). is_taken row t.users) (sym before) ∙ added.fresh;
        tables = ap (λ d. sqlite.contents d) stored ∙ added.added ∙ ap (with_user row) before;
        user_id =
            ap (λ (v : UserRecord). v.user_id) same ∙ ap (λ (t : Tables). t.next_user_id) before;
        username = ap (λ (v : UserRecord). v.username) same;
        address = ap (λ (v : UserRecord). v.address) same;
        public_key_hex = ap (λ (v : UserRecord). v.public_key_hex) same;
        private_key_hex = ap (λ (v : UserRecord). v.private_key_hex) same;
      }

  module _ ⦃sodium : Sodium⦄ ⦃hashing : Hashing⦄ where
    -- A registration with its texts.
    pub record IsEnrolled (draws : Draws) (username password address pk sk : Bytes)
        (m : UserManager D) (user : UserRecord) (m1 : UserManager D) : Type 0 where
      pub long_name : 3 ≤ length username
      pub long_password : 6 ≤ length password
      pub hash : Bytes
      pub encrypted : Bytes
      pub hashed : hashing.hash_str draws.seed password ≡ some hash
      pub sealed : encrypt_secret draws.salt draws.nonce sk password ≡ some encrypted
      pub row : IsInsertedAs (user_row username hash address pk encrypted draws.now) sk m user m1

    enroll-IsEnrolled :
        (draws : Draws) (username password address pk sk : Bytes) (m m1 : UserManager D)
        (u : UserRecord)
        → 3 ≤ length username
        → 6 ≤ length password
        → enroll draws username password address pk sk m ≡ returned u m1
        → IsEnrolled draws username password address pk sk m u m1
    unfolding enroll
    enroll-IsEnrolled draws username password address pk sk m m1 u hn hp e =
        elim (Option-cases (secrets draws password sk)) [
          | inl failed ↦ ground arith
          | inr (texts, made) ↦
              let (ph, enc) = texts in
              let (hashed, sealed) = secrets-cases draws password sk ph enc made in
              record {
                long_name = hn;
                long_password = hp;
                hash = ph;
                encrypted = enc;
                hashed = hashed;
                sealed = sealed;
                row = insert-IsInsertedAs _ sk m m1 u (begin m.storage) refl (ground arith);
              }
        ]

    pub register-IsEnrolled :
        (draws : Draws) (username password : Bytes) (m m1 : UserManager D) (u : UserRecord)
        → register draws username password m ≡ returned u m1
        → IsEnrolled draws username password
            (take 40 (sha256_hex draws.public_key_hex))
            draws.public_key_hex
            draws.private_key_hex
            m
            u
            m1
    unfolding register
    register-IsEnrolled draws username password m m1 u e =
        enroll-IsEnrolled draws username password _ _ _ m m1 u (ground arith) (ground arith)
          (ground arith)

    pub register_with_key-IsEnrolled :
        (draws : Draws) (username password address pk sk : Bytes) (m m1 : UserManager D)
        (u : UserRecord)
        → register_with_key draws username password address pk sk m ≡ returned u m1
        → IsEnrolled draws username password address pk sk m u m1
    unfolding register_with_key
    register_with_key-IsEnrolled draws username password address pk sk m m1 u e =
        enroll-IsEnrolled draws username password address pk sk m m1 u (ground arith) (ground arith)
          (ground arith)

    -- The account and the row of a registered user, and the session of the first login.
    module _ (draws : Draws) (username password address pk sk : Bytes) (m m1 : UserManager D)
        (u : UserRecord) (h : IsEnrolled draws username password address pk sk m u m1) where
      pub IsEnrolled-get_account :
          get_account m1.storage address
          ≡ some (record { address = address; balance = 1000; nonce = 0 })
      unfolding get_account user_row
      IsEnrolled-get_account =
          ap (λ (t : Tables). account_of address (t.accounts address)) h.row.tables
          ∙ rw (bytes_eq_refl address) refl

      IsEnrolled-found :
          user_by_name username (sqlite.contents m1.storage).users
          ≡ some (record (user_row username h.hash address pk h.encrypted draws.now) {
            user_id = (sqlite.contents m.storage).next_user_id;
          })
      unfolding user_row
      IsEnrolled-found =
          ap (λ (t : Tables). user_by_name username t.users) h.row.tables
          ∙ user_by_name-snoc (user_row username h.hash address pk h.encrypted draws.now) _
              (sqlite.contents m.storage).users h.row.fresh refl

      same_user : u ≡ record {
        user_id = (sqlite.contents m.storage).next_user_id;
        username = username;
        address = address;
        public_key_hex = pk;
        private_key_hex = sk;
      }
      unfolding user_row
      same_user = λ i. record {
        user_id = h.row.user_id i;
        username = h.row.username i;
        address = h.row.address i;
        public_key_hex = h.row.public_key_hex i;
        private_key_hex = h.row.private_key_hex i;
      }

      opens :
          (later : Draws) (db : D)
          → sqlite.step (replace_session later.token (session_of later u)) m1.storage ≡ some db
          → open_session later u m1
            ≡ returned (record { token = later.token; user = u }) (record m1 { storage = db })
      unfolding open_session
      opens later db e = rw (e, open_session)

      pub IsEnrolled-login :
          (later : Draws) (db : D)
          → length draws.salt ≡ 16
          → length draws.nonce ≡ 24
          → All IsByte draws.salt
          → All IsByte draws.nonce
          → All IsByte sk
          → sqlite.step (replace_session later.token (session_of later u)) m1.storage ≡ some db
          → login later username password m1
            ≡ returned (record { token = later.token; user = u }) (record m1 { storage = db })
      unfolding login log_in_row user_row
      IsEnrolled-login later db hs hn bs bn bk opened =
          ap (λ o. log_in_row later o username password m1) IsEnrolled-found
          ∙ rw
              (
                hashing.verify-hash_str draws.seed password h.hash h.hashed,
                decrypt-encrypt_secret draws.salt draws.nonce sk password h.encrypted hs hn bs bn bk
                    h.sealed,
              )
              (ap (λ v. open_session later v m1) (sym same_user) ∙ opens later db opened)

    -- A user that `Register` has returned has a name of 3 bytes and a password of 6 at least, and an
    -- account with 1000 coins and nonce 0 at its address; and `Login` with that name and password,
    -- right after it, returns the same user, private key included, if the session can be written. The
    -- salt and the nonce have their lengths, and with the private key they are bytes.
    pub register-login :
        (draws later : Draws) (username password : Bytes) (m m1 : UserManager D) (u : UserRecord)
        (db : D)
        → length draws.salt ≡ 16
        → length draws.nonce ≡ 24
        → All IsByte draws.salt
        → All IsByte draws.nonce
        → All IsByte draws.private_key_hex
        → register draws username password m ≡ returned u m1
        → sqlite.step (replace_session later.token (session_of later u)) m1.storage ≡ some db
        → (3 ≤ length username)
          × (6 ≤ length password)
          × (get_account m1.storage u.address ≡ some (initial_account u.address))
          × (login later username password m1
              ≡ returned (record { token = later.token; user = u }) (record m1 { storage = db }))
    unfolding user_row
    register-login draws later username password m m1 u db hs hn bs bn bk e opened =
        let h = register-IsEnrolled draws username password m m1 u e in
        (
          h.long_name,
          h.long_password,
          subst (λ a. get_account m1.storage a ≡ some (initial_account a)) (sym h.row.address)
              (IsEnrolled-get_account draws username password _ _ _ m m1 u h),
          IsEnrolled-login draws username password _ _ _ m m1 u h later db hs hn bs bn bk opened,
        )
