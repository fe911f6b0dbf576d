-- ===== src/Examples/Chains.antt =====
-- A borrow of 5 units against a deposit of 7 units of a token with the same decimals, on chain 1 for chain
-- 2, with one bucket of confirmations.
use sprinter_signing.Base.{
  ℕ, ◌*◌, ◌^◌, ◌≤◌, ◌<◌, ◌≡◌, ◌↔◌, refl, true, some, List, [], ◌∷◌, arith, contains, length, ok,
  err,
}
use sprinter_signing.Base.Int.{pos}
use sprinter_signing.Base.Dict.{lookup, nat_key}
use sprinter_signing.Base.Text.{text_eq, decimal, decimal_from}
use sprinter_signing.Chains.Amounts.{scale_token_amount, scale_token_amount_iff}
use sprinter_signing.Chains.Tokens.{
  TokenStore, TokenConfig, config_by_address, config_by_symbol, find_address,
}
use sprinter_signing.Chains.Confirmations.{Buckets, bounds, minimal_confirmations, exceeds_buckets}
use sprinter_signing.Chains.Required.{minimal_confirmations_lem}
use sprinter_signing.Chains.Handler.{
  Services, external, replies, Signed, session_of, notify, sign_and_execute,
}
use sprinter_signing.Chains.Across
use sprinter_signing.Chains.Across.{AcrossMessageHandler, AcrossData, AcrossDeposit}
use sprinter_signing.Chains.LifiEscrow
use sprinter_signing.Chains.LifiEscrow.{LifiEscrowMessageHandler, LifiEscrowData, LifiOrder}
use sprinter_signing.Chains.SprinterCredit
use sprinter_signing.Chains.SprinterCredit.{SprinterCreditMessageHandler, SprinterCreditData}
use sprinter_signing.Chains.LifiUnlock.{LifiUnlockHandler, LifiUnlockData}
use sprinter_signing.Chains.Lighter
use sprinter_signing.Chains.Lighter.{LighterMessageHandler, LighterData, LighterTx, Transfer}

scale_token_amount_example : (5 ≤ scale_token_amount 51000 4 0) ↔ (5 * 10 ^ 4 ≤ 51000 * 10 ^ 0)
scale_token_amount_example = scale_token_amount_iff 51000 4 0 5

abbrev usdc : TokenConfig
usdc = record { address = 77; decimals = 6 }

abbrev tokens : TokenStore
tokens = (1, (1 ∷ [], usdc) ∷ []) ∷ (2, (1 ∷ [], usdc) ∷ []) ∷ []

abbrev two_buckets : Buckets
two_buckets = (1000, 3) ∷ (100, 1) ∷ []

minimal_confirmations_example :
    (lookup 100 two_buckets ≡ some 1
      → contains (bounds two_buckets) 100 ≡ true
      → 50 < 100
      → ((b' : ℕ) → contains (bounds two_buckets) b' ≡ true → 50 < b' → 100 ≤ b')
      → minimal_confirmations two_buckets 50 ≡ ok 1)
    × (((b' : ℕ) → contains (bounds two_buckets) b' ≡ true → b' ≤ 50)
        → minimal_confirmations two_buckets 50 ≡ err exceeds_buckets)
minimal_confirmations_example =
    minimal_confirmations_lem two_buckets 50 100 1 (omega arith, (omega arith, tt))

abbrev no_more : List Signed
no_more = []

abbrev services : Services
services = record {
  host_id = 5;
  borrow_unlock_hash = λ b. ok 6;
  new_signing = λ s h. ok tt;
  execute = λ s h c. ok tt;
}

abbrev pub across_handler : AcrossMessageHandler
across_handler = record {
  chain_id = 1;
  token_store = tokens;
  range = λ m. m;
  pools = (2, 31) ∷ [];
  repayers = (1, 32) ∷ [];
  services = services;
  marshal = λ d. some (d.coordinator ∷ []);
  deposit_fetcher = λ hash id.
      ok (record {
        input_token = 77;
        output_token = 77;
        input_amount = 7;
        destination_chain_id = 2;
      });
  confirmation_watcher = λ chain hash token amount. ok tt;
  calldata = λ d chain repayment address. ok (8 ∷ []);
}

abbrev pub across_data : AcrossData
across_data = record {
  deposit_tx_hash = 41;
  deposit_id = some (pos 3);
  nonce = pos 1;
  borrow_amount = pos 5;
  liquidity_pool = 42;
  repayment_chain_id = 1;
  caller = 43;
  coordinator = 0;
  deadline = 44;
}

across_signed_example :
    Across.IsChecked across_handler across_data (session_of 1 (51 ∷ []), 6, 5) × (no_more ≡ [])
unfolding Across.handle_message Across.verify config_by_address config_by_symbol find_address
    scale_token_amount notify sign_and_execute decimal decimal_from text_eq
across_signed_example =
    Across.across-IsChecked across_handler across_data (session_of 1 (51 ∷ []), 6, 5) no_more refl

abbrev lifi_handler : LifiEscrowMessageHandler
lifi_handler = record {
  chain_id = 1;
  token_store = tokens;
  verify_range = λ m. m;
  borrow_range = λ m. m;
  lifi_addresses = (2, 31) ∷ [];
  services = services;
  marshal = λ d. some (d.coordinator ∷ []);
  order_fetcher = λ hash id. ok (record {
    inputs = 1;
    generic_inputs = record { token_address = 77; amount = 7 } ∷ [];
    outputs = 2 ∷ [];
    order_initiated_tx_hash = 41;
  });
  validate = λ order. ok tt;
  total_inputs_usd_value = λ order. ok 7;
  confirmation_watcher = λ chain hash value. ok tt;
  calldata = λ order. ok (8 ∷ []);
}

abbrev lifi_data : LifiEscrowData
lifi_data = record {
  order_id = 3 ∷ [];
  coordinator = 9;
  liquidity_pool = 42;
  caller = 43;
  deposit_tx_hash = 41 ∷ [];
  borrow_amount = pos 5;
  deadline = 44;
  nonce = pos 1;
}

lifi_replies_example :
    length (replies (LifiEscrow.handle_message lifi_handler lifi_data).effects) ≤ 1
lifi_replies_example = (LifiEscrow.lifi_escrow-replies lifi_handler lifi_data).0

lifi_signed_example :
    LifiEscrow.IsChecked lifi_handler lifi_data (session_of 1 (3 ∷ []), 6, 9) × (no_more ≡ [])
unfolding LifiEscrow.handle_message LifiEscrow.verify_order LifiEscrow.borrow_token
    config_by_address config_by_symbol find_address scale_token_amount notify sign_and_execute
    text_eq
lifi_signed_example =
    LifiEscrow.lifi_escrow-IsChecked lifi_handler lifi_data (session_of 1 (3 ∷ []), 6, 9) no_more
      refl

abbrev credit_handler : SprinterCreditMessageHandler
credit_handler = record {
  chain_id = 1;
  liquidators = (77, 31) ∷ [];
  services = services;
  marshal = λ d. some (d.coordinator ∷ []);
  decode_hex = λ t. ok t;
  hex_to_address = λ t. 77;
}

abbrev credit_data : SprinterCreditData
credit_data = record {
  deposit_id = 3 ∷ [];
  borrow_amount = pos 5;
  calldata = 8 ∷ [];
  deadline = 44;
  liquidity_pool = 42;
  caller = 43;
  nonce = pos 1;
  coordinator = 0;
  token_out = [];
}

abbrev unlock_handler : LifiUnlockHandler
unlock_handler = record {
  chain_id = 1;
  repayers = (1, 32) ∷ [];
  services = services;
  marshal = λ d. some (d.coordinator ∷ []);
  hash_allow_open = λ chain id repayer settler. ok 6;
}

abbrev unlock_data : LifiUnlockData
unlock_data = record { order_id = 3 ∷ []; settler = 45; coordinator = 0 }

abbrev withdrawal : Transfer
withdrawal = record {
  amount = 7000000;
  asset_index = 3;
  from_account_index = 1;
  to_account_index = pos 9;
  fee = 0;
  memo =
      1 ∷ 2 ∷ 3 ∷ 4 ∷ 5 ∷ 6 ∷ 7 ∷ 8 ∷ 9 ∷ 10 ∷ 11 ∷ 12 ∷ 13 ∷ 14 ∷ 15 ∷ 16 ∷ 17 ∷ 18 ∷ 19 ∷ 20 ∷ [];
}

abbrev lighter_tx : LighterTx
lighter_tx = record { hash = 41 ∷ []; type = 12; transfer = some withdrawal }

-- With a hashing that fails.
abbrev lighter_handler : LighterMessageHandler
lighter_handler = record {
  services = record services { borrow_unlock_hash = λ b. err (external 2) };
  lighter_address = 31;
  usdc_address = 77;
  repayment_account = 57 ∷ [];
  confirmations = two_buckets;
  marshal = λ d. some (d.coordinator ∷ []);
  tx_fetcher = λ hash. ok lighter_tx;
  pack_fulfill_withdraw = λ hash memo amount. ok (8 ∷ []);
}

abbrev lighter_data : LighterData
lighter_data = record {
  order_hash = 3 ∷ [];
  coordinator = 9;
  liquidity_pool = 42;
  deposit_tx_hash = 41 ∷ [];
  nonce = pos 1;
  deadline = 44;
}
