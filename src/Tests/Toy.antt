-- ===== src/Tests/Toy.antt =====
-- A stand-in for libsodium, good enough to run the definitions: the hash of a message is its length,
-- every signature is zeros, and a sealed message is the message behind sixteen zeros.
use blockchain_demo.Prelude.{
  Bool, ◌≡◌, not, ◌&&◌, ◌==◌, ◌%◌, refl, ◌∷◌, ◌++◌, true, [], codes, Bytes, some, arith, length,
  length-append, All-append, drop,
}
use blockchain_demo.Encoding.{IsByte, IsHash}
use blockchain_demo.Encoding.Zeros.{zeros, zeros_are_bytes}
use blockchain_demo.Encoding.Fields.{bar, LacksBar}
use blockchain_demo.Crypto.{Sodium}
use blockchain_demo.Transaction.{Transaction}

abbrev pub measure : Bytes → Bytes
measure m = (length m % 256) ∷ zeros 31

pub measure-IsHash : (m : Bytes) → IsHash (measure m)
measure-IsHash m = (refl, (omega arith, zeros_are_bytes 31))

abbrev pub seal : Bytes → Bytes
seal m = zeros 16 ++ m

instance abbrev pub toy : Sodium
toy = record {
  hash_sha256 = measure;
  hash_sha256-IsHash = measure-IsHash;
  sign_detached = λ m sk. zeros 64;
  sign_verify_detached = λ sig m pk. true;
  length-sign_detached = λ m sk. refl;
  sign_detached-IsByte = λ m sk. zeros_are_bytes 64;
  public_of = λ sk. zeros 32;
  verify-sign = λ m sk. refl;
  pwhash = λ password salt. some salt;
  secretbox_easy = λ m n k. seal m;
  secretbox_open_easy = λ c n k. some (drop 16 c);
  length-secretbox_easy = λ m n k. omega (arith, length-append (zeros 16) m);
  secretbox_easy-IsByte = λ m n k h. All-append IsByte (zeros 16) m (zeros_are_bytes 16) h;
  open-easy = λ m n k. refl;
}

abbrev pub transfer : Transaction
transfer = record {
  tx_id = [];
  type = codes "TRANSFER";
  from = codes "alice";
  to = codes "bob";
  amount = 100;
  data_hash = [];
  nonce = 1;
  timestamp = 7;
  public_key_hex = codes "00ff";
  signature_hex = codes "ff";
}

abbrev pub resigned : Transaction
resigned = record transfer { signature_hex = codes "aa" }

abbrev pub lacks_bar : Bytes → Bool
lacks_bar [] = true
lacks_bar (c ∷ s) = not (c == bar) && lacks_bar s

pub allowed : (s : Bytes) → lacks_bar s ≡ true → LacksBar s
allowed [] h = tt
allowed (c ∷ s) h = ground (arith, allowed s)
