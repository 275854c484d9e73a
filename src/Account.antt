-- ===== src/Account.antt =====
-- src/user/account_state.cpp: the state of an account, and the bytes that the state tree holds for it.
use blockchain_demo.Prelude.{ℕ, ◌≡◌, ◌∷◌, ◌++◌, Bytes}
use blockchain_demo.Encoding.{decimal}
use blockchain_demo.Encoding.Decimal.{decimal-injective}
use blockchain_demo.Encoding.Fields.{bar, LacksBar, split_at_bar, decimal-LacksBar}

pub record AccountState : Type 0 where
  pub address : Bytes
  pub balance : ℕ
  pub nonce : ℕ

-- `SerializeAccountState`
unfoldable pub serialize_account_state : AccountState → Bytes
serialize_account_state state =
    state.address ++ (bar ∷ (decimal state.balance ++ (bar ∷ decimal state.nonce)))

-- `EncodeAccountState`: the bytes of the text
unfoldable pub encode_account_state : AccountState → Bytes
unfolding serialize_account_state
encode_account_state state = serialize_account_state state

-- Accounts whose addresses hold no '|' have different encodings unless they agree in everything.
encode_account_state-injective :
    (a b : AccountState)
    → LacksBar a.address
    → LacksBar b.address
    → encode_account_state a ≡ encode_account_state b
    → a ≡ b
unfolding encode_account_state
encode_account_state-injective a b la lb e =
    let (address, e1) = split_at_bar a.address b.address _ _ la lb e in
    let (balance, nonce) =
      split_at_bar (decimal a.balance) (decimal b.balance) _ _ (decimal-LacksBar a.balance)
        (decimal-LacksBar b.balance) e1 in
    let same_balance = decimal-injective a.balance b.balance balance in
    let same_nonce = decimal-injective a.nonce b.nonce nonce in
    λ i. record { address = address i; balance = same_balance i; nonce = same_nonce i }
