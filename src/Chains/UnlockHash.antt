-- ===== src/Chains/UnlockHash.antt =====
-- chains/evm/signature/hash.go: the hashes that are signed.
use sprinter_signing.Base.{ℕ, ◌≡◌, ◌≢◌, [], ◌∷◌, arith, Result, ok, ◌>>=◌, or_fail}
use sprinter_signing.Base.Text.{Text, bytes}
use sprinter_signing.Chains.Tokens.{Address}
use sprinter_signing.Chains.Handler.{Borrow}
use sprinter_signing.Chains.Eip712.{
  Domain, BorrowMessage, BorrowManyMessage, domain_struct, borrow_struct, borrow_many_struct,
  Fields, field_of, domain_fields, Eip712, HashError, not_hashed, raw_data, IsCollisionFree, digest,
  digest-injective,
}

abbrev pub common_fields : Fields
common_fields =
    field_of (bytes "target") (bytes "address")
    ∷ field_of (bytes "targetCallData") (bytes "bytes")
    ∷ field_of (bytes "nonce") (bytes "uint256")
    ∷ field_of (bytes "deadline") (bytes "uint256")
    ∷ []

abbrev pub borrow_fields : Fields
borrow_fields =
    field_of (bytes "caller") (bytes "address")
    ∷ field_of (bytes "borrowToken") (bytes "address")
    ∷ field_of (bytes "amount") (bytes "uint256")
    ∷ common_fields

abbrev pub borrow_many_fields : Fields
borrow_many_fields =
    field_of (bytes "caller") (bytes "address")
    ∷ field_of (bytes "borrowTokens") (bytes "address[]")
    ∷ field_of (bytes "amounts") (bytes "uint256[]")
    ∷ common_fields

abbrev pub domain_of : ℕ → Address → Domain
domain_of chain_id liquidity_pool = record {
  name = bytes "LiquidityPool";
  version = bytes "1.0.0";
  chain_id = chain_id;
  verifying_contract = liquidity_pool;
}

abbrev pub message_of : Borrow → BorrowMessage
message_of b = record {
  caller = b.caller;
  borrow_token = b.token;
  amount = b.amount;
  target = b.target;
  target_call_data = b.calldata;
  nonce = b.nonce;
  deadline = b.deadline;
}

-- `BorrowUnlockHash`
unfoldable pub borrow_unlock_hash : Eip712 → Borrow → Result HashError Text
borrow_unlock_hash eip712 b = do
  domain_separator ←
      or_fail
        (eip712.hash_struct domain_fields (domain_struct (domain_of b.chain_id b.liquidity_pool)))
        not_hashed
  message_hash ←
      or_fail (eip712.hash_struct borrow_fields (borrow_struct (message_of b))) not_hashed
  ok (eip712.keccak256 (raw_data domain_separator message_hash))

-- `BorrowManyUnlockHash`
unfoldable pub borrow_many_unlock_hash :
    Eip712 → BorrowManyMessage → ℕ → Address → Result HashError Text
borrow_many_unlock_hash eip712 m chain_id liquidity_pool = do
  domain_separator ←
      or_fail (eip712.hash_struct domain_fields (domain_struct (domain_of chain_id liquidity_pool)))
        not_hashed
  message_hash ← or_fail (eip712.hash_struct borrow_many_fields (borrow_many_struct m)) not_hashed
  ok (eip712.keccak256 (raw_data domain_separator message_hash))

module _ (eip712 : Eip712) (free : IsCollisionFree eip712) where
  -- Two borrows with the same hash are the same in every respect: the pool and its chain, the caller, the
  -- token and its amount, the target and the calldata, the nonce and the deadline. No hash of a borrow is
  -- the hash of a borrow of many tokens, whatever chain and pool that is for.
  pub borrow_unlock_hash-injective :
      (b b' : Borrow) (h : Text)
      → borrow_unlock_hash eip712 b ≡ ok h
      → (borrow_unlock_hash eip712 b' ≡ ok h → b ≡ b')
        × ((m : BorrowManyMessage) (chain : ℕ) (pool : Address)
            → borrow_many_unlock_hash eip712 m chain pool ≢ ok h)
  unfolding borrow_unlock_hash borrow_many_unlock_hash digest
  borrow_unlock_hash-injective b b' h e = (
    λ e'.
        let same =
          digest-injective eip712 free (domain_of b.chain_id b.liquidity_pool)
            (domain_of b'.chain_id b'.liquidity_pool) borrow_fields borrow_fields
            (borrow_struct (message_of b)) (borrow_struct (message_of b')) h e e' in
        ground (arith, same),
    λ m chain pool e'.
        let same =
          digest-injective eip712 free (domain_of b.chain_id b.liquidity_pool)
            (domain_of chain pool) borrow_fields borrow_many_fields (borrow_struct (message_of b))
            (borrow_many_struct m) h e e' in
        ground (arith, same),
  )
