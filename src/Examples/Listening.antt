-- ===== src/Examples/Listening.antt =====
-- A request that one relayer broadcasts and another reads.
use sprinter_signing.Base.{
  ℕ, ◌≡◌, refl, subst, Option, none, some, List, [], ◌∷◌, arith, ◌==◌, if◌then◌else◌,
}
use sprinter_signing.Base.Int.{ℤ, pos, negsuc}
use sprinter_signing.Base.Text.{Text, text_eq, decimal}
use sprinter_signing.Comm.Messages.{MessageType, across_msg, across_session_id}
use sprinter_signing.Chains.Amounts.{scale_token_amount}
use sprinter_signing.Chains.Tokens.{config_by_address, config_by_symbol, find_address}
use sprinter_signing.Chains.Handler.{session_of, notify, sign_and_execute}
use sprinter_signing.Chains.Listen.{listen_across, message, IsRelayed, listen-IsRelayed}
use sprinter_signing.Chains.Across
use sprinter_signing.Chains.Across.{AcrossMessageHandler, AcrossData}
use sprinter_signing.Examples.Chains.{across_handler, across_data}

-- An encoding of a request as a list of its numbers, integers behind their signs.
abbrev sign : ℤ → ℕ
sign (pos n) = 0
sign (negsuc n) = 1

abbrev size : ℤ → ℕ
size (pos n) = n
size (negsuc n) = n

abbrev signed : ℕ → ℕ → ℤ
signed s n = if s == 0 then pos n else negsuc n

abbrev id_sign : Option ℤ → ℕ
id_sign none = 2
id_sign (some z) = sign z

abbrev id_size : Option ℤ → ℕ
id_size none = 0
id_size (some z) = size z

abbrev id_signed : ℕ → ℕ → Option ℤ
id_signed s n = if s == 2 then none else some (signed s n)

signed-sign : (z : ℤ) → signed (sign z) (size z) ≡ z
signed-sign (pos n) = refl
signed-sign (negsuc n) = refl

id_signed-id_sign : (i : Option ℤ) → id_signed (id_sign i) (id_size i) ≡ i
id_signed-id_sign none = refl
id_signed-id_sign (some (pos n)) = refl
id_signed-id_sign (some (negsuc n)) = refl

abbrev encoded : AcrossData → Text
encoded d =
    d.deposit_tx_hash
    ∷ id_sign d.deposit_id
    ∷ id_size d.deposit_id
    ∷ sign d.nonce
    ∷ size d.nonce
    ∷ sign d.borrow_amount
    ∷ size d.borrow_amount
    ∷ d.liquidity_pool
    ∷ d.repayment_chain_id
    ∷ d.caller
    ∷ d.coordinator
    ∷ d.deadline
    ∷ []

abbrev decoded : Text → Option AcrossData
decoded (hash ∷ is ∷ i ∷ ns ∷ n ∷ bs ∷ b ∷ pool ∷ chain ∷ caller ∷ coordinator ∷ deadline ∷ rest) =
    some (record {
      deposit_tx_hash = hash;
      deposit_id = id_signed is i;
      nonce = signed ns n;
      borrow_amount = signed bs b;
      liquidity_pool = pool;
      repayment_chain_id = chain;
      caller = caller;
      coordinator = coordinator;
      deadline = deadline;
    })
decoded _ = none

decoded-encoded : (d : AcrossData) → decoded (encoded d) ≡ some d
decoded-encoded d =
    ground (arith, id_signed-id_sign d.deposit_id, signed-sign d.nonce, signed-sign d.borrow_amount)

abbrev encoding_handler : AcrossMessageHandler
encoding_handler = record across_handler { marshal = λ d. some (encoded d) }

reads_back : (d : AcrossData) (p : Text) → encoding_handler.marshal d ≡ some p → decoded p ≡ some d
reads_back d p h =
    subst (λ t. decoded t ≡ some d) {x = encoded d} {y = p} (ground (arith, h)) (decoded-encoded d)

abbrev sent_payload : Text
sent_payload = encoded (record across_data { coordinator = 5 })

abbrev none_left : List (MessageType × Text × Text)
none_left = []

listen-IsRelayed_example :
    (none_left ≡ [])
    × (across_msg ≡ across_msg)
    × IsRelayed 5 (listen_across decoded across_handler (message sent_payload ∷ [])).0
unfolding Across.handle_message Across.verify config_by_address config_by_symbol find_address
    scale_token_amount notify sign_and_execute decimal text_eq
listen-IsRelayed_example =
    listen-IsRelayed.0 encoding_handler across_handler across_data decoded sent_payload
      (session_of 1 across_session_id) across_msg none_left reads_back (λ e. omega (arith, e)) refl
