-- ===== src/Chains/AllowOpen.antt =====
-- `lifiUnlockHash` of chains/evm/message/unlock.go: the hash that opens the inputs of a LiFi order. EIP-712
-- and Keccak-256 are parameters, and so are `HexToHash` of the order's ID and of an address in hex.
use sprinter_signing.Base.{ℕ, ◌≡◌, ◌≢◌, [], ◌∷◌, arith, Result, ok, ◌>>=◌, or_fail}
use sprinter_signing.Base.Text.{Text, bytes}
use sprinter_signing.Chains.Tokens.{Address}
use sprinter_signing.Chains.Handler.{Borrow}
use sprinter_signing.Chains.Eip712.{
  Domain, AllowOpenMessage, BorrowManyMessage, domain_struct, borrow_struct, borrow_many_struct,
  allow_open_struct, Fields, field_of, domain_fields, Eip712, HashError, not_hashed, raw_data,
  IsCollisionFree, digest, digest-injective,
}
use sprinter_signing.Chains.UnlockHash.{
  domain_of, message_of, borrow_fields, borrow_many_fields, borrow_unlock_hash,
  borrow_many_unlock_hash,
}

abbrev pub allow_open_fields : Fields
allow_open_fields =
    field_of (bytes "orderId") (bytes "bytes32")
    ∷ field_of (bytes "destination") (bytes "bytes32")
    ∷ field_of (bytes "call") (bytes "bytes")
    ∷ []

-- `DOMAIN_NAME` and `VERSION`
abbrev pub escrow_domain : ℕ → Address → Domain
escrow_domain chain_id settler = record {
  name = bytes "OIFEscrowLIFI";
  version = bytes "1";
  chain_id = chain_id;
  verifying_contract = settler;
}

module _ (eip712 : Eip712) (hex_to_hash : Text → ℕ) (address_to_hash : Address → ℕ) where
  abbrev pub allow_open_message : Text → Address → AllowOpenMessage
  allow_open_message order_id repayment_address = record {
    order_id = hex_to_hash order_id;
    destination = address_to_hash repayment_address;
    call = bytes "0x";
  }

  -- The hash for the chain, the order, the repayer's address and the settler.
  unfoldable pub allow_open_hash : ℕ → Text → Address → Address → Result HashError Text
  allow_open_hash chain_id order_id repayment_address settler = do
    domain_separator ←
        or_fail (eip712.hash_struct domain_fields (domain_struct (escrow_domain chain_id settler)))
          not_hashed
    message_hash ←
        or_fail
          (eip712.hash_struct allow_open_fields
            (allow_open_struct (allow_open_message order_id repayment_address)))
          not_hashed
    ok (eip712.keccak256 (raw_data domain_separator message_hash))

  -- Two hashes that open orders are the same only for the same chain, settler and order, and the same
  -- address that the inputs go to. Such a hash is never one that borrows from a pool, whatever the pool,
  -- its chain and the borrow are.
  pub allow_open_hash-injective :
      (free : IsCollisionFree eip712)
      (address_to_hash_injective : (a b : Address) → address_to_hash a ≡ address_to_hash b → a ≡ b)
      (chain chain' : ℕ) (order order' : Text) (to to' settler settler' : Address) (h : Text)
      → allow_open_hash chain order to settler ≡ ok h
      → (allow_open_hash chain' order' to' settler' ≡ ok h
          → (chain ≡ chain')
            × (settler ≡ settler')
            × (hex_to_hash order ≡ hex_to_hash order')
            × (to ≡ to'))
        × ((b : Borrow) → borrow_unlock_hash eip712 b ≢ ok h)
        × ((m : BorrowManyMessage) (n : ℕ) (pool : Address)
            → borrow_many_unlock_hash eip712 m n pool ≢ ok h)
  unfolding allow_open_hash borrow_unlock_hash borrow_many_unlock_hash digest
  allow_open_hash-injective free injective chain chain' order order' to to' settler settler' h e = (
    λ e'.
        let (domain, message) =
          digest-injective eip712 free (escrow_domain chain settler) (escrow_domain chain' settler')
            allow_open_fields allow_open_fields (allow_open_struct (allow_open_message order to))
            (allow_open_struct (allow_open_message order' to')) h e e' in
        ground (arith, domain, message, injective to to'),
    λ b e'.
        let same =
          digest-injective eip712 free (escrow_domain chain settler)
            (domain_of b.chain_id b.liquidity_pool) allow_open_fields borrow_fields
            (allow_open_struct (allow_open_message order to)) (borrow_struct (message_of b)) h e
            e' in
        ground (arith, same),
    λ m n pool e'.
        let same =
          digest-injective eip712 free (escrow_domain chain settler) (domain_of n pool)
            allow_open_fields borrow_many_fields (allow_open_struct (allow_open_message order to))
            (borrow_many_struct m) h e e' in
        ground (arith, same),
  )
