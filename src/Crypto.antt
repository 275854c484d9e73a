-- ===== src/Crypto.antt =====
-- src/crypto/crypto_utils.cpp. libsodium is not part of the repository: its functions are the fields
-- of `Sodium`, with the documented facts that the code relies on. Random bytes are arguments.
pub mod Collision
pub mod Secret
use blockchain_demo.Prelude.{
  ℕ, ◌+◌, ◌-◌, ◌≡◌, ◌<◌, Bool, true, false, ◌&&◌, ◌||◌, not, ◌++◌, Option, none, some, Bytes,
  length, All, take, drop, ltb, ◌==◌, if◌then◌else◌,
}
use blockchain_demo.Encoding.{IsByte, IsHash, bytes_to_hex, hex_to_bytes, hash_to_hex}

pub record Sodium : Type 0 where
  -- `crypto_hash_sha256`
  pub hash_sha256 : Bytes → Bytes
  pub hash_sha256-IsHash : (m : Bytes) → IsHash (hash_sha256 m)
  -- `crypto_sign_detached m sk` and `crypto_sign_verify_detached sig m pk == 0`
  pub sign_detached : Bytes → Bytes → Bytes
  pub sign_verify_detached : Bytes → Bytes → Bytes → Bool
  pub length-sign_detached : (m sk : Bytes) → length (sign_detached m sk) ≡ 64
  pub sign_detached-IsByte : (m sk : Bytes) → All IsByte (sign_detached m sk)
  -- the public key that `crypto_sign_keypair` returns beside a private key
  pub public_of : Bytes → Bytes
  pub verify-sign :
      (m sk : Bytes) → sign_verify_detached (sign_detached m sk) m (public_of sk) ≡ true
  -- `crypto_pwhash password salt`; `none` is its failure for lack of memory
  pub pwhash : Bytes → Bytes → Option Bytes
  -- `crypto_secretbox_easy m nonce key` and `crypto_secretbox_open_easy c nonce key`
  pub secretbox_easy : Bytes → Bytes → Bytes → Bytes
  pub secretbox_open_easy : Bytes → Bytes → Bytes → Option Bytes
  pub length-secretbox_easy : (m n k : Bytes) → length (secretbox_easy m n k) ≡ length m + 16
  pub secretbox_easy-IsByte : (m n k : Bytes) → All IsByte m → All IsByte (secretbox_easy m n k)
  pub open-easy : (m n k : Bytes) → secretbox_open_easy (secretbox_easy m n k) n k ≡ some m

module _ ⦃sodium : Sodium⦄ where
  -- `Sha256`
  abbrev pub sha256 : Bytes → Bytes
  sha256 m = sodium.hash_sha256 m

  -- `Sha256String`: the bytes of the text are the bytes that are hashed.
  unfoldable pub sha256_string : Bytes → Bytes
  sha256_string m = sha256 m

  -- `Sha256Hex`
  unfoldable pub sha256_hex : Bytes → Bytes
  unfolding sha256_string
  sha256_hex m = hash_to_hex (sha256_string m)

  -- `SignDetachedHex`; `none` is an exception: not hexadecimal, or not 64 bytes.
  unfoldable pub sign_detached_hex : Bytes → Bytes → Option Bytes
  sign_detached_hex message private_key_hex = elim (hex_to_bytes private_key_hex) [
    | none ↦ none
    | some sk ↦
        if length sk == 64 then some (bytes_to_hex (sodium.sign_detached message sk)) else none
  ]

  -- `VerifyDetachedHex`; `none` is the exception of `HexToBytes`.
  unfoldable pub verify_detached_hex : Bytes → Bytes → Bytes → Option Bool
  verify_detached_hex message signature_hex public_key_hex = elim (hex_to_bytes signature_hex) [
    | none ↦ none
    | some sig ↦ elim (hex_to_bytes public_key_hex) [
      | none ↦ none
      | some pk ↦
          if not (length sig == 64) || not (length pk == 32)
          then some false
          else some (sodium.sign_verify_detached sig message pk)
    ]
  ]

  -- `EncryptSecret`, with the salt of 16 bytes and the nonce of 24 that it draws; `none` is the
  -- exception of `DeriveKey`.
  unfoldable pub encrypt_secret : Bytes → Bytes → Bytes → Bytes → Option Bytes
  encrypt_secret salt nonce plaintext password = elim (sodium.pwhash password salt) [
    | none ↦ none
    | some key ↦ some (bytes_to_hex (salt ++ (nonce ++ sodium.secretbox_easy plaintext nonce key)))
  ]

  -- `DecryptSecret`; `none` is any of its exceptions.
  unfoldable pub decrypt_secret : Bytes → Bytes → Option Bytes
  decrypt_secret encrypted_hex password = elim (hex_to_bytes encrypted_hex) [
    | none ↦ none
    | some packed ↦
        if ltb (length packed) 56 then none else elim (sodium.pwhash password (take 16 packed)) [
          | none ↦ none
          | some key ↦ sodium.secretbox_open_easy (drop 40 packed) (take 24 (drop 16 packed)) key
        ]
  ]
