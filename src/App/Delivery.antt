-- ===== src/App/Delivery.antt =====
-- Which handler of a chain is registered for the messages that the API forwards to it.
use sprinter_signing.Base.{
  ℕ, ◌≡◌, ◌≢◌, refl, ap, sym, Bool, true, false, ◌||◌, Option, none, some, List, [], ◌∷◌, arith,
  subst, if◌then◌else◌, Result, ok, err, ◌==◌, contains, length,
}
use sprinter_signing.Base.Dict.{lookup, lookup-insert, nat_key}
use sprinter_signing.Chains.Tokens.{Address}
use sprinter_signing.Chains.Lighter.{lighter_domain_id, LighterData}
use sprinter_signing.Chains.LifiEscrow.{LifiEscrowData}
use sprinter_signing.Chains.SprinterCredit.{SprinterCreditData}
use sprinter_signing.Config.Evm.{EvmConfig, ChainConfigError}
use sprinter_signing.Config.Lighter.{LighterConfig}
use sprinter_signing.Api.Signing.{
  AcrossRequest, Message, across, lifi_escrow, lighter, sprinter_credit,
}
use sprinter_signing.App.Contracts.{Panic, Entry, Contracts, is_set}
use sprinter_signing.App.Domains.{
  Registered, across_handler, lifi_escrow_handler, sprinter_credit_handler, Domain, evm_chain,
  lighter_chain, Chains, no_chains, Calls, is_supported, handlers_of, start_block, add_domain,
  register_chain, register_step, register_chains, register_lighter,
}

-- A handler is registered under the type of its messages.
abbrev pub is_for : Message → Registered → Bool
is_for (across n d) (across_handler c t p r) = true
is_for (lifi_escrow n d) (lifi_escrow_handler c a s t) = true
is_for (sprinter_credit n d) (sprinter_credit_handler c l) = true
is_for _ _ = false

abbrev pub find_handler : Message → List Registered → Option Registered
find_handler m [] = none
find_handler m (r ∷ rs) = if is_for m r then some r else find_handler m rs

abbrev pub handlers_in : Option Domain → List Registered
handlers_in none = []
handlers_in (some (evm_chain rs block)) = rs
handlers_in (some (lighter_chain c)) = []

abbrev has_id : ℕ → EvmConfig → Bool
has_id n c = elim c.general.id [ none ↦ false | some k ↦ k == n ]

abbrev updated : ℕ → Result ChainConfigError EvmConfig → Option EvmConfig → Option EvmConfig
updated n (err x) last = last
updated n (ok c) last = if has_id n c then some c else last

-- The last accepted configuration with the ID `n`.
abbrev pub last_config : ℕ → List Entry → Option EvmConfig → Option EvmConfig
last_config n [] last = last
last_config n (e ∷ entries) last = last_config n entries (updated n e.evm_config last)

module _ (calls : Calls) (mpc_address : Address) (contracts : Contracts) where
  abbrev handlers_for : ℕ → Option EvmConfig → List Registered → List Registered
  handlers_for n none rs = rs
  handlers_for n (some c) rs = handlers_of calls mpc_address contracts n c

  -- A run of the loop that has come to chains where `n` is as `last` says.
  record IsUpToDate (n : ℕ) (last : Option EvmConfig) (s : Chains) : Type 0 where
    handlers : handlers_in (lookup n s.domains) ≡ handlers_for n last []
    supported :
        (c : EvmConfig)
        → last ≡ some c
        → is_supported calls mpc_address contracts c ≡ true
        → contains s.supported_chains n ≡ true

  add_domain-IsUpToDate :
      (n k : ℕ) (block : Option ℕ) (last : Option EvmConfig) (c : EvmConfig) (s : Chains)
      → c.general.id ≡ some k
      → IsUpToDate n last s
      → IsUpToDate n
          (if has_id n c then some c else last)
          (add_domain calls mpc_address contracts k c block s)
  add_domain-IsUpToDate n k block last c s i u = record {
    handlers =
        let domain = evm_chain (handlers_of calls mpc_address contracts k c) block in
        ground (arith, i, u.handlers, lookup-insert k n domain s.domains);
    supported = λ d e b. ground (arith, i, e, b, u.supported d);
  }

  register_chain-IsUpToDate :
      (n : ℕ) (last : Option EvmConfig) (c : EvmConfig) (s s' : Chains)
      → IsUpToDate n last s
      → register_chain calls mpc_address contracts c s ≡ ok s'
      → IsUpToDate n (if has_id n c then some c else last) s'
  unfolding register_chain
  register_chain-IsUpToDate n last c s s' u h =
      step c.general.id (start_block calls mpc_address contracts c) refl refl
    where
      step :
          (id : Option ℕ) (block : Result Panic (Option ℕ))
          → c.general.id ≡ id
          → start_block calls mpc_address contracts c ≡ block
          → IsUpToDate n (if has_id n c then some c else last) s'
      step none block i b = absurd (ground (arith, h, i))
      step (some k) (err e) i b = absurd (ground (arith, h, i, b))
      step (some k) (ok block) i b =
          subst (IsUpToDate n (if has_id n c then some c else last)) (ground (arith, h, i, b))
            (add_domain-IsUpToDate n k block last c s i u)

  register_chains-IsUpToDate :
      (n : ℕ) (entries : List Entry) (last : Option EvmConfig) (s s' : Chains)
      → IsUpToDate n last s
      → register_chains calls mpc_address contracts entries s ≡ ok s'
      → IsUpToDate n (last_config n entries last) s'
  unfolding register_chains
  register_chains-IsUpToDate n [] last s s' u h = subst (IsUpToDate n last) (ground (arith, h)) u
  register_chains-IsUpToDate n (e ∷ entries) last s s' u h =
      step e.evm_config (register_step calls mpc_address contracts e.evm_config s) refl refl
        (λ l t. register_chains-IsUpToDate n entries l t s')
    where
      step :
          (r : Result ChainConfigError EvmConfig) (next : Result Panic Chains)
          → e.evm_config ≡ r
          → register_step calls mpc_address contracts r s ≡ next
          → ((l : Option EvmConfig) (t : Chains)
              → IsUpToDate n l t
              → register_chains calls mpc_address contracts entries t ≡ ok s'
              → IsUpToDate n (last_config n entries l) s')
          → IsUpToDate n (last_config n (e ∷ entries) last) s'
      step r (err x) i b rest = absurd (ground (arith, h, i, b))
      step r (ok t) i b rest =
          subst (λ l. IsUpToDate n l s')
            (ap (λ r. last_config n entries (updated n r last)) (sym i))
            (rest (updated n r last) t (stepped r t b) (ground (arith, h, i, b)))
        where
          stepped :
              (r : Result ChainConfigError EvmConfig) (t : Chains)
              → register_step calls mpc_address contracts r s ≡ ok t
              → IsUpToDate n (updated n r last) t
          stepped (err x) t b = subst (IsUpToDate n last) (ground (arith, b)) u
          stepped (ok c) t b = register_chain-IsUpToDate n last c s t u b

  -- When the chains are registered, every chain whose configuration was accepted, save one with the ID of
  -- the Lighter chain, has the handlers of its last configuration: one for Across messages if it has a
  -- pool, one for LiFi orders if it has an output settler, one for Sprinter credit if it has a liquidator,
  -- and none for Lighter withdrawals. It is supported if it has a pool or a settler.
  pub register_chains_lem :
      (entries : List Entry) (lighter_config : LighterConfig) (s : Chains) (n : ℕ) (c : EvmConfig)
      (a : AcrossRequest) (o : LifiEscrowData) (credit : SprinterCreditData) (w : LighterData)
      → register_chains calls mpc_address contracts entries no_chains ≡ ok s
      → last_config n entries none ≡ some c
      → n ≢ lighter_domain_id
      → let all = register_lighter lighter_config s in
        let handlers = handlers_in (lookup n all.domains) in
        (find_handler (across n a) handlers ≡ (
          if is_set c.across_pool
          then some
              (across_handler n contracts.tokens contracts.across_pools contracts.repayer_addresses)
          else none))
        × (find_handler (lifi_escrow n o) handlers ≡ (
            if is_set c.lifi_output_settler
            then some
                (lifi_escrow_handler n mpc_address contracts.lifi_output_settlers contracts.tokens)
            else none))
        × (find_handler (sprinter_credit n credit) handlers ≡ (
            if length c.liquidators == 0
            then none
            else some (sprinter_credit_handler n c.liquidators)))
        × (find_handler (lighter n w) handlers ≡ none)
        × (is_set c.across_pool || is_set c.lifi_output_settler ≡ true
            → contains all.supported_chains n ≡ true)
  unfolding register_lighter handlers_of
  register_chains_lem entries lighter_config s n c a o credit w h l d =
      let u = register_chains-IsUpToDate n entries none no_chains s initial h in
      ground (
        arith,
        l,
        d,
        lookup-insert lighter_domain_id n (lighter_chain lighter_config) s.domains,
        u.handlers,
        u.supported c l,
      )
    where
      initial : IsUpToDate n none no_chains
      initial = record { handlers = refl; supported = λ c e b. absurd (ground (arith, e)) }
