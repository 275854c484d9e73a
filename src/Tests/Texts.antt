-- ===== src/Tests/Texts.antt =====
-- Hexadecimal texts, signatures, secrets and signed transactions.
use blockchain_demo.Prelude.{◌≡◌, refl, [], ◌∷◌, ◌++◌, some, Bytes, codes, arith}
use blockchain_demo.Encoding.{bytes_to_hex, hex_to_bytes}
use blockchain_demo.Encoding.Fields.{bar}
use blockchain_demo.Encoding.Zeros.{zeros, zeros_are_bytes}
use blockchain_demo.Crypto.{sign_detached_hex, encrypt_secret, decrypt_secret}
use blockchain_demo.Crypto.Secret.{decrypt-encrypt_secret}
use blockchain_demo.Transaction.{serialize_transaction_body}
use blockchain_demo.Transaction.Binding.{
  IsPlain, SameBody, serialize_transaction_body-injective, serialize_transaction_body-ambiguous,
}
use blockchain_demo.Tests.Toy.{toy, seal, transfer, resigned, allowed}

abbrev message : Bytes
message = codes "pay"

abbrev signature : Bytes
signature = bytes_to_hex (zeros 64)

signed : sign_detached_hex message (bytes_to_hex (zeros 64)) ≡ some signature
unfolding sign_detached_hex hex_to_bytes bytes_to_hex
signed = refl

abbrev stored : Bytes
stored = bytes_to_hex (zeros 16 ++ (zeros 24 ++ seal (1 ∷ 2 ∷ [])))

encrypted : encrypt_secret (zeros 16) (zeros 24) (1 ∷ 2 ∷ []) message ≡ some stored
unfolding encrypt_secret
encrypted = refl

decrypt-encrypt_secret_example : decrypt_secret stored message ≡ some (1 ∷ 2 ∷ [])
decrypt-encrypt_secret_example =
    decrypt-encrypt_secret (zeros 16) (zeros 24) (1 ∷ 2 ∷ []) message stored refl refl
      (zeros_are_bytes 16) (zeros_are_bytes 24) (omega arith, (omega arith, tt)) encrypted

transfer-IsPlain : IsPlain transfer
transfer-IsPlain = record {
  type = allowed transfer.type refl;
  from = allowed transfer.from refl;
  to = allowed transfer.to refl;
  data_hash = tt;
  public_key = allowed transfer.public_key_hex refl;
}

resigned-IsPlain : IsPlain resigned
resigned-IsPlain = record {
  type = transfer-IsPlain.type;
  from = transfer-IsPlain.from;
  to = transfer-IsPlain.to;
  data_hash = transfer-IsPlain.data_hash;
  public_key = transfer-IsPlain.public_key;
}

serialize_transaction_body-injective_example : SameBody transfer resigned
unfolding serialize_transaction_body
serialize_transaction_body-injective_example =
    serialize_transaction_body-injective transfer resigned transfer-IsPlain resigned-IsPlain refl

serialize_transaction_body-ambiguous_example :
    serialize_transaction_body
      (record transfer { from = codes "al" ++ (bar ∷ codes "ice"); to = codes "bob" })
    ≡ serialize_transaction_body
        (record transfer { from = codes "al"; to = codes "ice" ++ (bar ∷ codes "bob") })
serialize_transaction_body-ambiguous_example =
    serialize_transaction_body-ambiguous transfer (codes "al") (codes "ice") (codes "bob")
