-- ===== src/App/Served.antt =====
-- app/app.go: every chain that the second loop of `Run` makes a supported one is among the chains of the
-- relayer.
use sprinter_signing.Base.{
  ℕ, ◌≡◌, refl, true, false, Option, none, some, List, [], ◌∷◌, arith, subst, if◌then◌else◌, Result,
  ok, err, ◌==◌, contains, Bool-cases, ◌⊎◌, inl, inr,
}
use sprinter_signing.Base.Dict.{Dict, lookup, insert, lookup-insert, nat_key}
use sprinter_signing.Chains.Tokens.{Address}
use sprinter_signing.Config.Evm.{EvmConfig, ChainConfigError}
use sprinter_signing.App.Contracts.{Panic, Entry, Contracts}
use sprinter_signing.App.Domains.{
  Registered, Domain, evm_chain, Chains, no_chains, Calls, handlers_of, start_block, add_domain,
  register_chain, register_step, register_chains,
}

module _ (calls : Calls) (mpc_address : Address) (contracts : Contracts) where
  -- If `n` is supported it is an EVM chain.
  IsServed : ℕ → Chains → Type 0
  IsServed n s =
      contains s.supported_chains n ≡ true
      → (rs : List Registered) × (block : Option ℕ) × (lookup n s.domains
          ≡ some (evm_chain rs block))

  add_domain-IsServed :
      (n k : ℕ) (c : EvmConfig) (block : Option ℕ) (s : Chains)
      → IsServed n s
      → IsServed n (add_domain calls mpc_address contracts k c block s)
  unfolding IsServed
  add_domain-IsServed n k c block s u b = step (Bool-cases (k == n))
    where
      rs : List Registered
      rs = handlers_of calls mpc_address contracts k c

      domains : Dict ℕ Domain
      domains = insert k (evm_chain rs block) s.domains

      found : lookup n domains ≡ (if k == n then some (evm_chain rs block) else lookup n s.domains)
      found = lookup-insert k n (evm_chain rs block) s.domains

      step :
          (k == n ≡ true) ⊎ (k == n ≡ false)
          → (rs : List Registered) × (block : Option ℕ) × (lookup n domains
              ≡ some (evm_chain rs block))
      step (inl e) = (rs, block, ground (arith, found, e))
      step (inr e) =
          let (rs, block, before) = u (ground (arith, b, e)) in
          (rs, block, ground (arith, found, e, before))

  register_step-IsServed :
      (n : ℕ) (r : Result ChainConfigError EvmConfig) (s s' : Chains)
      → IsServed n s
      → register_step calls mpc_address contracts r s ≡ ok s'
      → IsServed n s'
  unfolding register_step register_chain
  register_step-IsServed n (err x) s s' u h = subst (IsServed n) (ground (arith, h)) u
  register_step-IsServed n (ok c) s s' u h =
      step c.general.id (start_block calls mpc_address contracts c) refl refl
    where
      step :
          (id : Option ℕ) (block : Result Panic (Option ℕ))
          → c.general.id ≡ id
          → start_block calls mpc_address contracts c ≡ block
          → IsServed n s'
      step none block i b = absurd (ground (arith, h, i))
      step (some k) (err e) i b = absurd (ground (arith, h, i, b))
      step (some k) (ok block) i b =
          subst (IsServed n) (ground (arith, h, i, b)) (add_domain-IsServed n k c block s u)

  register_chains-IsServed :
      (n : ℕ) (entries : List Entry) (s s' : Chains)
      → IsServed n s
      → register_chains calls mpc_address contracts entries s ≡ ok s'
      → IsServed n s'
  unfolding register_chains
  register_chains-IsServed n [] s s' u h = subst (IsServed n) (ground (arith, h)) u
  register_chains-IsServed n (e ∷ entries) s s' u h =
      step (register_step calls mpc_address contracts e.evm_config s) refl
        (λ t. register_chains-IsServed n entries t s')
    where
      step :
          (next : Result Panic Chains)
          → register_step calls mpc_address contracts e.evm_config s ≡ next
          → ((t : Chains)
              → IsServed n t
              → register_chains calls mpc_address contracts entries t ≡ ok s'
              → IsServed n s')
          → IsServed n s'
      step (err x) b rest = absurd (ground (arith, h, b))
      step (ok t) b rest =
          rest t (register_step-IsServed n e.evm_config s t u b) (ground (arith, h, b))

  -- A chain that is supported when the chains are registered is an EVM chain of the relayer.
  pub register_chains-supported :
      (n : ℕ) (entries : List Entry) (s : Chains)
      → register_chains calls mpc_address contracts entries no_chains ≡ ok s
      → contains s.supported_chains n ≡ true
      → (rs : List Registered) × (block : Option ℕ) × (lookup n s.domains
          ≡ some (evm_chain rs block))
  unfolding IsServed
  register_chains-supported n entries s =
      register_chains-IsServed n entries no_chains s (λ e. absurd (ground (arith, e)))
