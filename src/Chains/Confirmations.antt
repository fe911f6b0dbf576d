-- ===== src/Chains/Confirmations.antt =====
-- chains/evm/message/confirmations.go: how many confirmations an order needs, and the loop that waits
-- for them. Values and blocks are big.Ints that are not negative; bucket bounds have 64 bits. The price
-- of a token, and the floating-point product that makes an order's value of it, are parameters.
use sprinter_signing.Base.{
  ℕ, ◌+◌, ◌-◌, ◌^◌, Option, none, some, List, [], ◌∷◌, map, ltb, leb, if◌then◌else◌, Result, ok,
  err, ◌>>=◌, or_fail,
}
use sprinter_signing.Base.Dict.{Dict, lookup, nat_key}
use sprinter_signing.Base.Sort.{sort_by_rank}
use sprinter_signing.Base.Text.{Text}
use sprinter_signing.Chains.Tokens.{Address, TokenStore, Range, config_by_address}

-- `confirmations`: to each bound the confirmations of the orders below it.
abbrev pub Buckets : Type 0
Buckets = Dict ℕ ℕ

abbrev pub bounds : Buckets → List ℕ
bounds = map (λ b. b.0)

-- `slices.Sort` on 64-bit numbers, as a sorting by the distance from the largest.
abbrev pub from_top : ℕ → ℕ
from_top n = 2 ^ 64 - 1 - n

unfoldable pub sort_uint64 : List ℕ → List ℕ
sort_uint64 = sort_by_rank from_top

-- The loop over the sorted buckets.
unfoldable pub first_above : ℕ → List ℕ → Option ℕ
first_above value [] = none
first_above value (b ∷ bs) = let rest = first_above value bs in if ltb value b then some b else rest

unfoldable pub bucket_of : Buckets → ℕ → Option ℕ
unfolding sort_uint64 first_above
bucket_of buckets value = first_above value (sort_uint64 (bounds buckets))

pub data WatchError : Type 0 where
  exceeds_buckets no_price timed_out : WatchError
  no_token : WatchError

-- `minimalConfirmations`. A key of the map is in the map; a Go map gives 0 for others.
unfoldable pub minimal_confirmations : Buckets → ℕ → Result WatchError ℕ
unfolding bucket_of
minimal_confirmations buckets value = do
  bucket ← or_fail (bucket_of buckets value) exceeds_buckets
  ok (elim (lookup bucket buckets) [ some c ↦ c | none ↦ 0 ])

-- One turn of the loop of `wait`: what the receipt of the transaction and the latest block were, where
-- the client had them (`no_receipt` is an error or nil; `no_block` is an error).
pub data Poll : Type 0 where
  no_receipt no_block : Poll
  seen : ℕ → ℕ → Poll

-- `wait` on the turns that there is time for.
unfoldable pub wait : ℕ → List Poll → Result WatchError (Unit {0})
wait required [] = err timed_out
wait required (no_receipt ∷ polls) = wait required polls
wait required (no_block ∷ polls) = wait required polls
wait required (seen receipt latest ∷ polls) =
    let rest = wait required polls in if leb (receipt + required) latest then ok tt else rest

-- The watcher's client and pricer.
pub record Watcher : Type 0 where
  pub buckets : Buckets
  pub token_store : TokenStore
  pub range : Range
  pub token_value : Text → ℕ → ℕ → Option ℕ

-- `orderValue`
unfoldable pub order_value : Watcher → ℕ → Address → ℕ → Result WatchError ℕ
unfolding config_by_address
order_value w chain_id token amount =
    elim (config_by_address w.range w.token_store chain_id token) [
      | err e ↦ err no_token
      | ok (symbol, c) ↦ or_fail (w.token_value symbol amount c.decimals) no_price
    ]

unfoldable pub wait_for_token_confirmations :
    Watcher → ℕ → Address → ℕ → List Poll → Result WatchError (Unit {0})
unfolding order_value minimal_confirmations wait
wait_for_token_confirmations w chain_id token amount polls = do
  value ← order_value w chain_id token amount
  required ← minimal_confirmations w.buckets value
  wait required polls

-- `WaitForOrderConfirmations`, for a value that is rounded to an integer.
unfoldable pub wait_for_order_confirmations : Watcher → ℕ → List Poll → Result WatchError (Unit {0})
unfolding minimal_confirmations wait
wait_for_order_confirmations w value polls = do
  required ← minimal_confirmations w.buckets value
  wait required polls
