-- ===== src/Crypto/Secret.antt =====
-- src/crypto/crypto_utils.cpp: signatures verify, and private keys decrypt.
use blockchain_demo.Prelude.{
  ℕ, suc, zero, ◌+◌, ◌≡◌, refl, true, List, [], ◌∷◌, ◌++◌, some, Bytes, arith, length, All,
  All-append, take, drop, ltb, if◌then◌else◌, none, false, Option-cases, inl, inr, none-ne-some,
  eq_of_some, length-append, append_assoc,
}
use blockchain_demo.Encoding.{IsByte, bytes_to_hex}
use blockchain_demo.Encoding.Hex.{hex_to_bytes-bytes_to_hex}
use blockchain_demo.Crypto.{
  Sodium, sign_detached_hex, verify_detached_hex, encrypt_secret, decrypt_secret,
}

take-append {ℓ} : {A : Type ℓ} (n : ℕ) (xs ys : List A) → length xs ≡ n → take n (xs ++ ys) ≡ xs
take-append zero [] ys h = refl
take-append zero (x ∷ xs) ys h = absurd (omega arith)
take-append (suc n) [] ys h = absurd (omega arith)
take-append (suc n) (x ∷ xs) ys h = rw (take-append n xs ys (omega arith))

drop-append {ℓ} : {A : Type ℓ} (n : ℕ) (xs ys : List A) → length xs ≡ n → drop n (xs ++ ys) ≡ ys
drop-append zero [] ys h = refl
drop-append zero (x ∷ xs) ys h = absurd (omega arith)
drop-append (suc n) [] ys h = absurd (omega arith)
drop-append (suc n) (x ∷ xs) ys h = drop-append n xs ys (omega arith)

module _ ⦃sodium : Sodium⦄ where
  -- A signature that `SignDetachedHex` returned for a private key verifies under the public key
  -- of that private key, where the keys are bytes and the public key takes 32 of them.
  verify-sign_detached_hex :
      (message sk sig : Bytes)
      → All IsByte sk
      → length (sodium.public_of sk) ≡ 32
      → All IsByte (sodium.public_of sk)
      → sign_detached_hex message (bytes_to_hex sk) ≡ some sig
      → verify_detached_hex message sig (bytes_to_hex (sodium.public_of sk)) ≡ some true
  unfolding sign_detached_hex verify_detached_hex
  verify-sign_detached_hex message sk sig hs wide hp h = ground (
    arith,
    hex_to_bytes-bytes_to_hex sk hs,
    hex_to_bytes-bytes_to_hex (sodium.public_of sk) hp,
    hex_to_bytes-bytes_to_hex (sodium.sign_detached message sk)
        (sodium.sign_detached-IsByte message sk),
    sodium.length-sign_detached message sk,
    sodium.verify-sign message sk,
  )

  unpack :
      (salt nonce c : Bytes)
      → length salt ≡ 16
      → length nonce ≡ 24
      → (take 16 (salt ++ (nonce ++ c)) ≡ salt)
        × (take 24 (drop 16 (salt ++ (nonce ++ c))) ≡ nonce)
        × (drop 40 (salt ++ (nonce ++ c)) ≡ c)
  unpack salt nonce c hs hn = (
    take-append 16 salt (nonce ++ c) hs,
    rw (drop-append 16 salt (nonce ++ c) hs) (take-append 24 nonce c hn),
    rw (← append_assoc)
        (drop-append 40 (salt ++ nonce) c (omega (arith, length-append salt nonce))),
  )

  open_all :
      (plaintext password salt nonce key c packed : Bytes)
      → ltb (length packed) 56 ≡ false
      → take 16 packed ≡ salt
      → take 24 (drop 16 packed) ≡ nonce
      → drop 40 packed ≡ c
      → sodium.pwhash password salt ≡ some key
      → sodium.secretbox_open_easy c nonce key ≡ some plaintext
      → (if ltb (length packed) 56 then none else elim (sodium.pwhash password (take 16 packed)) [
        | none ↦ none
        | some k ↦ sodium.secretbox_open_easy (drop 40 packed) (take 24 (drop 16 packed)) k
      ])
        ≡ some plaintext
  open_all plaintext password salt nonce key c packed long hs hn hc e opened =
      rw (long, hs, e, hn, hc) opened

  -- The password that encrypted a text of bytes decrypts it, whatever salt of 16 bytes and nonce
  -- of 24 bytes were drawn.
  pub decrypt-encrypt_secret :
      (salt nonce plaintext password stored : Bytes)
      → length salt ≡ 16
      → length nonce ≡ 24
      → All IsByte salt
      → All IsByte nonce
      → All IsByte plaintext
      → encrypt_secret salt nonce plaintext password ≡ some stored
      → decrypt_secret stored password ≡ some plaintext
  unfolding encrypt_secret decrypt_secret
  decrypt-encrypt_secret salt nonce plaintext password stored hs hn bs bn bp h =
      elim (Option-cases (sodium.pwhash password salt)) [
        | inl e ↦ absurd (none-ne-some (rw (e, encrypt_secret) at h))
        | inr (key, e) ↦
            let c = sodium.secretbox_easy plaintext nonce key in
            let (got_salt, got_nonce, got_rest) = unpack salt nonce c hs hn in
            let bytes : All IsByte (salt ++ (nonce ++ c)) = All-append IsByte salt (nonce ++ c) bs (
              All-append IsByte nonce c bn (sodium.secretbox_easy-IsByte plaintext nonce key bp)) in
            let long : length (salt ++ (nonce ++ c)) ≡ 56 + length plaintext = omega (
              arith,
              length-append salt (nonce ++ c),
              length-append nonce c,
              sodium.length-secretbox_easy plaintext nonce key,
            ) in
            rw (← eq_of_some (rw (e, encrypt_secret) at h)) (
              rw (hex_to_bytes-bytes_to_hex (salt ++ (nonce ++ c)) bytes, decrypt_secret)
                (open_all plaintext password salt nonce key c (salt ++ (nonce ++ c)) (ground arith)
                  got_salt got_nonce got_rest e (sodium.open-easy plaintext nonce key)))
      ]
