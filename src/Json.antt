-- ===== src/Json.antt =====
-- nlohmann::json, which is not part of the repository: the calls that the conversions make are the
-- fields of `Nlohmann`, with their documented meaning. An exception is `none`.
use blockchain_demo.Prelude.{
  ℕ, ◌≡◌, ◌≢◌, All, ◌∙◌, ap, ◌<◌, ◌^◌, Bool, true, false, List, [], ◌∷◌, Option, none, some, Bytes,
  bytes_eq, if◌then◌else◌, ◌>>=◌,
}

-- The first field with the key.
abbrev pub lookup_field : {J : Type 0} → Bytes → List (Bytes × J) → Option J
lookup_field key [] = none
lookup_field key ((name, j) ∷ fields) =
    if bytes_eq name key then some j else lookup_field key fields

pub record Nlohmann (J : Type 0) : Type 0 where
  -- the constructors of a value
  pub text : Bytes → J
  pub number : ℕ → J
  pub array : List J → J
  pub object : List (Bytes × J) → J
  -- `is_object` and `find`
  pub is_object : J → Bool
  pub find : J → Bytes → Option J
  -- `get<std::string>` and `get<uint64_t>`
  pub as_text : J → Option Bytes
  pub as_number : J → Option ℕ
  -- `is_null`
  pub is_null : J → Bool
  -- what a range `for` visits
  pub elements : J → List J
  -- `dump`, which refuses a text that is not UTF-8 and escapes control characters, and `parse`
  pub dump : J → Option Bytes
  pub parse : Bytes → Option J
  pub is_null-object : (fields : List (Bytes × J)) → is_null (object fields) ≡ false
  pub is_object-object : (fields : List (Bytes × J)) → is_object (object fields) ≡ true
  pub find-object :
      (fields : List (Bytes × J)) (key : Bytes) → find (object fields) key ≡ lookup_field key fields
  pub as_text-text : (s : Bytes) → as_text (text s) ≡ some s
  pub as_number-number : (n : ℕ) → n < 2 ^ 64 → as_number (number n) ≡ some n
  pub elements-array : (js : List J) → elements (array js) ≡ js
  pub parse-dump : (j : J) (s : Bytes) → dump j ≡ some s → parse s ≡ some j
  pub dump-LacksZero : (j : J) (s : Bytes) → dump j ≡ some s → All (λ c. c ≢ 0) s

module _ {J : Type 0} ⦃json : Nlohmann J⦄ where
  -- `j.at(key).get<std::string>()`
  unfoldable pub text_at : J → Bytes → Option Bytes
  text_at j key = json.find j key >>= json.as_text

  -- `j.at(key).get<uint64_t>()`
  unfoldable pub number_at : J → Bytes → Option ℕ
  number_at j key = json.find j key >>= json.as_number

  -- `j.value(key, fallback)` of a text
  unfoldable pub text_or : J → Bytes → Bytes → Option Bytes
  text_or j key fallback =
      if json.is_object j
      then elim (json.find j key) [ none ↦ some fallback | some v ↦ json.as_text v ]
      else none

  -- `j.value(key, fallback)` of a number
  unfoldable pub number_or : J → Bytes → ℕ → Option ℕ
  number_or j key fallback =
      if json.is_object j
      then elim (json.find j key) [ none ↦ some fallback | some v ↦ json.as_number v ]
      else none

  module _ (fields : List (Bytes × J)) (key : Bytes) where
    pub text_at-object :
        (s : Bytes)
        → lookup_field key fields ≡ some (json.text s)
        → text_at (json.object fields) key ≡ some s
    unfolding text_at
    text_at-object s h =
        ap (λ (o : Option J). o >>= json.as_text) (json.find-object fields key ∙ h)
        ∙ json.as_text-text s

    pub number_at-object :
        (n : ℕ)
        → n < 2 ^ 64
        → lookup_field key fields ≡ some (json.number n)
        → number_at (json.object fields) key ≡ some n
    unfolding number_at
    number_at-object n b h =
        ap (λ (o : Option J). o >>= json.as_number) (json.find-object fields key ∙ h)
        ∙ json.as_number-number n b

    pub text_or-object :
        (fallback s : Bytes)
        → lookup_field key fields ≡ some (json.text s)
        → text_or (json.object fields) key fallback ≡ some s
    unfolding text_or
    text_or-object d s h =
        rw (json.is_object-object fields, json.find-object fields key, h) (json.as_text-text s)

    pub text_or-missing :
        (fallback : Bytes)
        → lookup_field key fields ≡ none
        → text_or (json.object fields) key fallback ≡ some fallback
    unfolding text_or
    text_or-missing d h = rw (json.is_object-object fields, json.find-object fields key, h)

    pub number_or-object :
        (fallback n : ℕ)
        → n < 2 ^ 64
        → lookup_field key fields ≡ some (json.number n)
        → number_or (json.object fields) key fallback ≡ some n
    unfolding number_or
    number_or-object d n b h =
        rw (json.is_object-object fields, json.find-object fields key, h)
          (json.as_number-number n b)
