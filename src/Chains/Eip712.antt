-- ===== src/Chains/Eip712.antt =====
-- The typed data of chains/evm/signature/hash.go and of chains/evm/message/unlock.go. EIP-712's
-- `HashStruct` and Keccak-256 are parameters; an address stands for its hex text, and a hash is its bytes.
use sprinter_signing.Base.{
  ℕ, ◌≡◌, refl, sym, ap, ◌∙◌, Option, none, some, List, [], ◌∷◌, ◌++◌, arith, Result, ok, ◌>>=◌,
  or_fail, length,
}
use sprinter_signing.Base.Int.{ℤ}
use sprinter_signing.Base.Text.{Text, bytes}
use sprinter_signing.Chains.Tokens.{Address}

-- The domain of the typed data, and the messages of the three primary types. A
-- `bytes32` is a number.
pub record Domain : Type 0 where
  pub name : Text
  pub version : Text
  pub chain_id : ℕ
  pub verifying_contract : Address

pub record BorrowMessage : Type 0 where
  pub caller : Address
  pub borrow_token : Address
  pub amount : ℤ
  pub target : Address
  pub target_call_data : Text
  pub nonce : ℤ
  pub deadline : ℕ

pub record BorrowManyMessage : Type 0 where
  pub caller : Address
  pub borrow_tokens : List Address
  pub amounts : List ℤ
  pub target : Address
  pub target_call_data : Text
  pub nonce : ℤ
  pub deadline : ℕ

pub record AllowOpenMessage : Type 0 where
  pub order_id : ℕ
  pub destination : ℕ
  pub call : Text

pub data Struct : Type 0 where
  domain_struct : Domain → Struct
  borrow_struct : BorrowMessage → Struct
  borrow_many_struct : BorrowManyMessage → Struct
  allow_open_struct : AllowOpenMessage → Struct

-- The fields of a type, by name and type.
abbrev pub Fields : Type 0
Fields = List (Text × Text)

abbrev pub field_of : Text → Text → Text × Text
field_of name type = (name, type)

abbrev pub domain_fields : Fields
domain_fields =
    field_of (bytes "name") (bytes "string")
    ∷ field_of (bytes "version") (bytes "string")
    ∷ field_of (bytes "chainId") (bytes "uint256")
    ∷ field_of (bytes "verifyingContract") (bytes "address")
    ∷ []

-- `HashStruct` of a struct whose type has the fields, and `crypto.Keccak256`.
pub record Eip712 : Type 0 where
  pub hash_struct : Fields → Struct → Option Text
  pub keccak256 : Text → Text

pub data HashError : Type 0 where
  not_hashed : HashError

-- The prefix of EIP-191 and the two hashes.
abbrev pub raw_data : Text → Text → Text
raw_data domain_separator message_hash = 25 ∷ 1 ∷ domain_separator ++ message_hash

-- What EIP-712 promises: hashes of 32 bytes and, as far as Keccak-256 does, no two structs with one hash.
pub record IsCollisionFree (eip712 : Eip712) : Type 0 where
  pub keccak256_injective : (s t : Text) → eip712.keccak256 s ≡ eip712.keccak256 t → s ≡ t
  pub domain_hash_length :
      (d : Domain) (h : Text)
      → eip712.hash_struct domain_fields (domain_struct d) ≡ some h
      → length h ≡ 32
  pub struct_injective :
      (f g : Fields) (s t : Struct) (h : Text)
      → eip712.hash_struct f s ≡ some h
      → eip712.hash_struct g t ≡ some h
      → s ≡ t

append-injective : (a b s t : Text) → length a ≡ length b → a ++ s ≡ b ++ t → (a ≡ b) × (s ≡ t)
append-injective [] [] s t l e = (refl, e)
append-injective [] (y ∷ b) s t l e = absurd (omega (arith, l))
append-injective (x ∷ a) [] s t l e = absurd (omega (arith, l))
append-injective (x ∷ a) (y ∷ b) s t l e =
    ground (arith, append-injective a b s t (omega (arith, l)), e)

-- The hash of a message in a domain.
unfoldable pub digest : Eip712 → Domain → Fields → Struct → Result HashError Text
digest eip712 d f m = do
  domain_separator ← or_fail (eip712.hash_struct domain_fields (domain_struct d)) not_hashed
  message_hash ← or_fail (eip712.hash_struct f m) not_hashed
  ok (eip712.keccak256 (raw_data domain_separator message_hash))

module _ (eip712 : Eip712) (free : IsCollisionFree eip712) where
  raw_data-injective :
      (d d' : Domain) (a b s t : Text)
      → eip712.hash_struct domain_fields (domain_struct d) ≡ some a
      → eip712.hash_struct domain_fields (domain_struct d') ≡ some b
      → eip712.keccak256 (raw_data a s) ≡ eip712.keccak256 (raw_data b t)
      → (d ≡ d') × (s ≡ t)
  raw_data-injective d d' a b s t ha hb e =
      let same =
        append-injective a b s t
          (free.domain_hash_length d a ha ∙ sym (free.domain_hash_length d' b hb))
          (ground (arith, free.keccak256_injective (raw_data a s) (raw_data b t) e)) in
      (
        ground (
          arith,
          same,
          ha,
          hb,
          free.struct_injective domain_fields domain_fields (domain_struct d) (domain_struct d') a,
        ),
        same.1,
      )

  hashed-injective :
      (d d' : Domain) (f g : Fields) (m n : Struct) (a b s t : Text)
      → eip712.hash_struct domain_fields (domain_struct d) ≡ some a
      → eip712.hash_struct domain_fields (domain_struct d') ≡ some b
      → eip712.hash_struct f m ≡ some s
      → eip712.hash_struct g n ≡ some t
      → eip712.keccak256 (raw_data a s) ≡ eip712.keccak256 (raw_data b t)
      → (d ≡ d') × (m ≡ n)
  hashed-injective d d' f g m n a b s t ha hb hs ht e =
      let (same, rest) = raw_data-injective d d' a b s t ha hb e in
      (same, free.struct_injective f g m n s hs (ht ∙ ap (λ h. some h) (sym rest)))

  -- Two messages with the same hash are the same in the same domain.
  pub digest-injective :
      (d d' : Domain) (f g : Fields) (m n : Struct) (h : Text)
      → digest eip712 d f m ≡ ok h
      → digest eip712 d' g n ≡ ok h
      → (d ≡ d') × (m ≡ n)
  unfolding digest
  digest-injective d d' f g m n h e e' =
      step (eip712.hash_struct domain_fields (domain_struct d))
        (eip712.hash_struct domain_fields (domain_struct d')) (eip712.hash_struct f m)
        (eip712.hash_struct g n) refl refl refl refl
    where
      step :
          (a b s t : Option Text)
          → eip712.hash_struct domain_fields (domain_struct d) ≡ a
          → eip712.hash_struct domain_fields (domain_struct d') ≡ b
          → eip712.hash_struct f m ≡ s
          → eip712.hash_struct g n ≡ t
          → (d ≡ d') × (m ≡ n)
      step none b s t ha hb hs ht = absurd (ground (arith, e, ha))
      step (some a) none s t ha hb hs ht = absurd (ground (arith, e', hb))
      step (some a) (some b) none t ha hb hs ht = absurd (ground (arith, e, ha, hs))
      step (some a) (some b) (some s) none ha hb hs ht = absurd (ground (arith, e', hb, ht))
      step (some a) (some b) (some s) (some t) ha hb hs ht =
          hashed-injective d d' f g m n a b s t ha hb hs ht (ground (arith, e, e', ha, hb, hs, ht))
