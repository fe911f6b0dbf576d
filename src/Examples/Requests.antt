-- ===== src/Examples/Requests.antt =====
-- Requests to the API for chain 7 and a transaction with two logs.
use sprinter_signing.Base.{
  ◌++◌, ◌↔◌, ℕ, ◌%◌, ◌^◌, ◌<◌, ◌≡◌, true, false, Option, none, some, List, [], ◌∷◌, map, contains,
  ok,
}
use sprinter_signing.Base.Int.{negsuc, pos, magnitude}
use sprinter_signing.Chains.Handler.{HandlerError}
use sprinter_signing.Chains.LifiUnlock.{LifiUnlockData}
use sprinter_signing.Api.BigInts.{
  unmarshal_big_int, marshal_big_int, quote, unmarshal_big_int-marshal_big_int,
}
use sprinter_signing.Api.Numbers.{chain_id_of, accepted, internal_error}
use sprinter_signing.Api.Signing.{
  SigningBody, Hex, Message, lighter, handle_signing, handle_signing_lem, across_protocol,
  lifi_escrow_protocol, lighter_protocol,
}
use sprinter_signing.Api.Unlock
use sprinter_signing.Api.Unlock.{UnlockBody, Received, handle_unlock, handle_unlock_lem}
use sprinter_signing.Protocol.Logs.{
  Log, Deposit, DepositFetcher, fetch_deposit, fetch_deposit_lem, relocate,
}

abbrev pub hex : Hex
hex = record { to_address = λ t. 7; to_hash = λ t. 8 }

abbrev pub body : SigningBody
body = record {
  deposit_id = 51 ∷ [];
  nonce = some (pos 1);
  protocol = lighter_protocol;
  liquidity_pool = 52 ∷ [];
  caller = 53 ∷ [];
  calldata = [];
  deposit_tx_hash = 54 ∷ [];
  borrow_amount = none;
  repayment_chain_id = 1;
  deadline = 44;
  token_out = [];
}

abbrev pub no_error : Message → Option HandlerError
no_error m = none

abbrev to_lighter : Message
to_lighter = lighter 7 (record {
  order_hash = 51 ∷ [];
  coordinator = 0;
  liquidity_pool = 7;
  deposit_tx_hash = 54 ∷ [];
  nonce = pos 1;
  deadline = 44;
})

abbrev no_more : List Message
no_more = []

handle_signing_example :
    let (messages, response) = handle_signing hex (7 ∷ []) (55 ∷ []) (some body) no_error in
    (messages ≡ to_lighter ∷ no_more
      → (no_more ≡ [])
        × ((response ≡ accepted) ↔ (no_error to_lighter ≡ none))
        × ((e : HandlerError) → no_error to_lighter ≡ some e → response ≡ internal_error)
        × (chain_id_of (55 ∷ []) ≡ ok 7)
        × (contains (7 ∷ []) 7 ≡ true)
        × (0 < 7)
        × (0 < 44))
    × (messages ≡ [] → response ≡ accepted → ⊥)
handle_signing_example = handle_signing_lem hex (7 ∷ []) (55 ∷ []) body no_error to_lighter no_more

abbrev no_amount : SigningBody
no_amount = record body { protocol = across_protocol }

abbrev unlock_body : UnlockBody
unlock_body = record { protocol = lifi_escrow_protocol; order_id = 51 ∷ []; settler = 52 ∷ [] }

abbrev receive : LifiUnlockData → Received
receive m = Unlock.signed (1 ∷ []) (2 ∷ [])

abbrev unlock_message : LifiUnlockData
unlock_message = record { order_id = 51 ∷ []; settler = 7; coordinator = 0 }

abbrev no_more_unlocks : List (ℕ × LifiUnlockData)
no_more_unlocks = []

abbrev deposit_log : Log
deposit_log = record {
  address = 31;
  topics = 100 ∷ 2 ∷ 3 ∷ 9 ∷ [];
  data_bytes = [];
  removed = false;
}

abbrev fetcher : DepositFetcher
fetcher = record {
  chain_id = 1;
  token_store = [];
  range = λ m. m;
  unpack = λ t. some (record { input_token = 77; output_token = 77; input_amount = 7 });
  destination_token = λ chain symbol. none;
  deposit_topic = 100;
}

abbrev deposit : Deposit
deposit = record {
  fields = record { input_token = 77; output_token = 77; input_amount = 7 };
  destination_chain_id = 2;
  deposit_id = 3;
  depositor = 9;
}

fetch_deposit_example :
    (fetch_deposit fetcher (some (deposit_log ∷ [])) (pos 3) ≡ ok deposit
      → (deposit.deposit_id ≡ magnitude (pos 3) % 2 ^ 256)
        × ((n : ℕ) → pos 3 ≡ pos n → n < 2 ^ 256 → deposit.deposit_id ≡ n))
    × (fetch_deposit fetcher (some (map (relocate 66) (deposit_log ∷ []))) (pos 3)
        ≡ fetch_deposit fetcher (some (deposit_log ∷ [])) (pos 3))
fetch_deposit_example = fetch_deposit_lem fetcher (pos 3) (deposit_log ∷ []) 66 deposit

abbrev open_log : Log
open_log = record { address = 31; topics = 200 ∷ 3 ∷ []; data_bytes = []; removed = false }

unmarshal_big_int-marshal_big_int_example :
    (unmarshal_big_int (marshal_big_int (some (negsuc 4))) ≡ some (negsuc 4))
    × (unmarshal_big_int (quote ∷ marshal_big_int (some (negsuc 4)) ++ quote ∷ [])
        ≡ some (negsuc 4))
unmarshal_big_int-marshal_big_int_example = unmarshal_big_int-marshal_big_int (negsuc 4)
