-- ===== src/Tests/Users.antt =====
-- A user who registers and logs in.
use blockchain_demo.Prelude.{
  ◌≡◌, ◌≤◌, refl, [], Option, none, some, Bytes, codes, bytes_eq, length, true,
}
use blockchain_demo.Encoding.{bytes_to_hex, hash_to_hex}
use blockchain_demo.Encoding.Zeros.{zeros, zeros_are_bytes}
use blockchain_demo.HashTable.{new, index, put, contains}
use blockchain_demo.HashTable.Hashing.{Key, string_key}
use blockchain_demo.Crypto.{encrypt_secret}
use blockchain_demo.Storage.{get_account}
use blockchain_demo.Storage.Schema.{effect, replace_session}
use blockchain_demo.User.{
  UserManager, UserRecord, Draws, Hashing, Returned, returned, raised, new_user_manager, register,
  login, session_of, secrets,
}
use blockchain_demo.User.Write.{initial_account}
use blockchain_demo.User.Registered.{register-login}
use blockchain_demo.Tests.Toy.{toy}
use blockchain_demo.Tests.Memory.{Memory, memory, empty_memory}

instance abbrev by_length : Key Bytes
by_length = string_key length

instance abbrev plain : Hashing
plain = record {
  hash_str = λ seed password. some password;
  verify = λ hash password. true;
  verify-hash_str = λ seed password hash e. refl;
}

abbrev draws : Draws
draws = record {
  public_key_hex = codes "00";
  private_key_hex = zeros 64;
  seed = [];
  salt = zeros 16;
  nonce = zeros 24;
  token = codes "token";
  now = 5;
}

abbrev manager : UserManager Memory
manager = new_user_manager empty_memory

abbrev user_or : Returned (UserManager Memory) UserRecord → UserRecord
user_or (returned user m) = user
user_or (raised m) = record {
  user_id = 0;
  username = [];
  address = [];
  public_key_hex = [];
  private_key_hex = [];
}

abbrev manager_or : Returned (UserManager Memory) UserRecord → UserManager Memory
manager_or (returned user m) = m
manager_or (raised m) = m

abbrev user : UserRecord
user = user_or (register draws (codes "alice") (codes "secret") manager)

abbrev later : UserManager Memory
later = manager_or (register draws (codes "alice") (codes "secret") manager)

registered : register draws (codes "alice") (codes "secret") manager ≡ returned user later
unfolding register new_user_manager new index put contains bytes_eq effect encrypt_secret
    bytes_to_hex hash_to_hex secrets
registered = refl

abbrev memory_or : Option Memory → Memory
memory_or none = empty_memory
memory_or (some db) = db

abbrev with_session : Memory
with_session =
    memory_or (memory.step (replace_session draws.token (session_of draws user)) later.storage)

opened :
    memory.step (replace_session draws.token (session_of draws user)) later.storage
    ≡ some with_session
unfolding effect
opened = refl

register-login_example :
    (3 ≤ length (codes "alice"))
    × (6 ≤ length (codes "secret"))
    × (get_account later.storage user.address ≡ some (initial_account user.address))
    × (login draws (codes "alice") (codes "secret") later
        ≡ returned
            (record { token = draws.token; user = user })
            (record later { storage = with_session }))
register-login_example =
    register-login draws draws (codes "alice") (codes "secret") manager later user with_session refl
      refl (zeros_are_bytes 16) (zeros_are_bytes 24) (zeros_are_bytes 64) registered opened
