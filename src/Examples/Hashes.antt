-- ===== src/Examples/Hashes.antt =====
-- Typed data whose hashes are their values behind one another.
use sprinter_signing.Base.{
  length, ℕ, ◌≡◌, ◌≢◌, refl, Option, none, some, [], ◌∷◌, arith, ok, if◌then◌else◌, replicate, ap,
  ◌&&◌,
}
use sprinter_signing.Base.Dict.{nat_key}
use sprinter_signing.Base.Int.{ℤ, pos, negsuc}
use sprinter_signing.Base.Text.{Text, bytes, text_eq, text_eq_iff}
use sprinter_signing.Chains.Handler.{Borrow}
use sprinter_signing.Chains.Eip712.{
  BorrowManyMessage, Struct, domain_struct, borrow_struct, borrow_many_struct, allow_open_struct,
  Fields, Eip712, IsCollisionFree, raw_data,
}
use sprinter_signing.Chains.UnlockHash.{
  borrow_unlock_hash, borrow_many_unlock_hash, borrow_unlock_hash-injective,
}
use sprinter_signing.Chains.Tokens.{Address}
use sprinter_signing.Chains.AllowOpen.{allow_open_hash, allow_open_hash-injective}

-- A hash of a struct: its values behind one another, the calldata last.
abbrev sign : ℤ → ℕ
sign (pos n) = 0
sign (negsuc n) = 1

abbrev size : ℤ → ℕ
size (pos n) = n
size (negsuc n) = n

int_injective : (a b : ℤ) → sign a ≡ sign b → size a ≡ size b → a ≡ b
int_injective (pos m) (pos n) s e = ap pos e
int_injective (pos m) (negsuc n) s e = ground (arith, s)
int_injective (negsuc m) (pos n) s e = ground (arith, s)
int_injective (negsuc m) (negsuc n) s e = ap negsuc e

abbrev hash_struct : Fields → Struct → Option Text
hash_struct f (domain_struct d) =
    if text_eq d.name (bytes "LiquidityPool") && text_eq d.version (bytes "1.0.0")
    then some (0 ∷ d.chain_id ∷ d.verifying_contract ∷ replicate 29 0)
    else if text_eq d.name (bytes "OIFEscrowLIFI") && text_eq d.version (bytes "1")
    then some (2 ∷ d.chain_id ∷ d.verifying_contract ∷ replicate 29 0)
    else none
hash_struct f (borrow_struct m) = some (
    1
    ∷ m.caller
    ∷ m.borrow_token
    ∷ m.target
    ∷ m.deadline
    ∷ sign m.amount
    ∷ size m.amount
    ∷ sign m.nonce
    ∷ size m.nonce
    ∷ m.target_call_data)
hash_struct f (borrow_many_struct m) = none
hash_struct f (allow_open_struct m) = some (3 ∷ m.order_id ∷ m.destination ∷ m.call)

abbrev eip712 : Eip712
eip712 = record { hash_struct = hash_struct; keccak256 = λ t. t }

hash_struct-injective :
    (f g : Fields) (s t : Struct) (h : Text)
    → hash_struct f s ≡ some h
    → hash_struct g t ≡ some h
    → s ≡ t
hash_struct-injective f g (domain_struct d) (domain_struct e) h a b = ground (
  arith,
  a,
  b,
  text_eq_iff d.name (bytes "LiquidityPool"),
  text_eq_iff e.name (bytes "LiquidityPool"),
  text_eq_iff d.version (bytes "1.0.0"),
  text_eq_iff e.version (bytes "1.0.0"),
  text_eq_iff d.name (bytes "OIFEscrowLIFI"),
  text_eq_iff e.name (bytes "OIFEscrowLIFI"),
  text_eq_iff d.version (bytes "1"),
  text_eq_iff e.version (bytes "1"),
)
hash_struct-injective f g (domain_struct d) (borrow_struct n) h a b = ground (arith, a, b)
hash_struct-injective f g (borrow_struct m) (domain_struct e) h a b = ground (arith, a, b)
hash_struct-injective f g (borrow_struct m) (borrow_struct n) h a b =
    ground (arith, a, b, int_injective m.amount n.amount, int_injective m.nonce n.nonce)
hash_struct-injective f g (domain_struct d) (allow_open_struct n) h a b = ground (arith, a, b)
hash_struct-injective f g (borrow_struct m) (allow_open_struct n) h a b = ground (arith, a, b)
hash_struct-injective f g (allow_open_struct m) (domain_struct e) h a b = ground (arith, a, b)
hash_struct-injective f g (allow_open_struct m) (borrow_struct n) h a b = ground (arith, a, b)
hash_struct-injective f g (allow_open_struct m) (allow_open_struct n) h a b = ground (arith, a, b)
hash_struct-injective f g (borrow_many_struct m) t h a b = ground (arith, a)
hash_struct-injective f g s (borrow_many_struct n) h a b = ground (arith, b)

eip712-IsCollisionFree : IsCollisionFree eip712
eip712-IsCollisionFree = record {
  keccak256_injective = λ s t e. e;
  domain_hash_length = λ d h e. ground (arith, e);
  struct_injective = hash_struct-injective;
}

abbrev borrow : Borrow
borrow = record {
  calldata = 8 ∷ [];
  amount = pos 5;
  token = 77;
  chain_id = 2;
  target = 31;
  deadline = 44;
  caller = 43;
  liquidity_pool = 42;
  nonce = pos 1;
}

abbrev larger : Borrow
larger = record borrow { amount = pos 6 }

abbrev borrow_hash : Text
borrow_hash =
    raw_data (0 ∷ 2 ∷ 42 ∷ replicate 29 0) (1 ∷ 43 ∷ 77 ∷ 31 ∷ 44 ∷ 0 ∷ 5 ∷ 0 ∷ 1 ∷ 8 ∷ [])

borrow_unlock_hash-injective_example :
    (borrow_unlock_hash eip712 larger ≡ ok borrow_hash → borrow ≡ larger)
    × ((m : BorrowManyMessage) (chain : ℕ) (pool : ℕ)
        → borrow_many_unlock_hash eip712 m chain pool ≢ ok borrow_hash)
unfolding borrow_unlock_hash text_eq
borrow_unlock_hash-injective_example =
    borrow_unlock_hash-injective eip712 eip712-IsCollisionFree borrow larger borrow_hash refl

-- An order whose ID has one byte; an address is its own hash, and the hash of a text is its length.
abbrev opened : Text
opened = raw_data (2 ∷ 2 ∷ 42 ∷ replicate 29 0) (3 ∷ 1 ∷ 31 ∷ bytes "0x")

abbrev chain : ℕ
chain = 2

abbrev settler : Address
settler = 42

abbrev repayer : Address
repayer = 31

abbrev other_repayer : Address
other_repayer = 32

abbrev order_id : Text
order_id = 8 ∷ []

abbrev other_id : Text
other_id = 9 ∷ []

allow_open_hash-injective_example :
    (allow_open_hash eip712 length (λ a. a) 2 other_id 32 42 ≡ ok opened
      → (chain ≡ chain)
        × (settler ≡ settler)
        × (length order_id ≡ length other_id)
        × (repayer ≡ other_repayer))
    × ((b : Borrow) → borrow_unlock_hash eip712 b ≢ ok opened)
    × ((m : BorrowManyMessage) (n : ℕ) (pool : Address)
        → borrow_many_unlock_hash eip712 m n pool ≢ ok opened)
unfolding allow_open_hash text_eq
allow_open_hash-injective_example =
    allow_open_hash-injective eip712 length (λ a. a) eip712-IsCollisionFree (λ a b e. e) 2 2
      order_id other_id 31 32 42 42 opened refl
