-- ===== src/Chains.antt =====
-- chains/: amounts and tokens, waiting for confirmations, and the message handlers that decide what the
-- relayers sign.
pub mod Amounts
pub mod Tokens
pub mod Confirmations
pub mod Required
pub mod Handler
pub mod Across
pub mod LifiEscrow
pub mod SprinterCredit
pub mod LifiUnlock
pub mod Lighter
pub mod Listener
pub mod Eip712
pub mod UnlockHash
pub mod AllowOpen
pub mod Price
pub mod Listen
pub mod LifiCalldata
