-- ===== src/Protocol/Logs.antt =====
-- protocol/across/deposit.go and protocol/lifi/event.go: the search for an event among the logs of a
-- transaction. Reading the receipt, decoding the data of a log by its ABI and the token matcher are
-- parameters; topics are 32-byte numbers.
use sprinter_signing.Base.{
  ◌<◌, ℕ, ◌%◌, ◌^◌, ◌≡◌, ◌⊎◌, inl, inr, refl, Bool, true, false, not, ◌&&◌, Option, none, some,
  List, [], ◌∷◌, ◌++◌, arith, ◌==◌, ltb, if◌then◌else◌, Result, ok, err, ◌>>=◌, ◌>>◌, or_fail,
  guard, length, get_elem?, Bool-cases, subst, map,
}
use mathlib.Core.Option
use sprinter_signing.Base.Int.{ℤ, pos, magnitude}
use sprinter_signing.Base.Text.{Text}
use sprinter_signing.Chains.Tokens.{Address, TokenStore, Range, config_by_address}

pub record Log : Type 0 where
  pub address : Address
  pub topics : List ℕ
  pub data_bytes : Text
  pub removed : Bool

pub data LogError : Type 0 where
  no_receipt not_found missing_topics undecodable unknown_token no_destination_token : LogError

abbrev pub topic : Log → ℕ → ℕ
topic l i = elim (get_elem? l.topics i) [ some t ↦ t | none ↦ 0 ]

-- The tests of the loop of `fetchDepositByHash`, after which the log is the deposit's. The deposit ID
-- is taken as the bytes of its absolute value, padded to 32; where it has more bytes than that,
-- `HexToHash` keeps the last 32.
unfoldable pub is_deposit : ℕ → ℤ → Log → Bool
is_deposit deposit_topic deposit_id l =
    not l.removed
    && not (ltb (length l.topics) 3)
    && topic l 0 == deposit_topic
    && topic l 2 == magnitude deposit_id % 2 ^ 256

-- The tests of the loop of `fetchOpenEvent`.
unfoldable pub is_open_event : Address → ℕ → ℕ → Log → Bool
is_open_event input_settler open_topic order_id l =
    not l.removed
    && not (ltb (length l.topics) 2)
    && l.address == input_settler
    && topic l 0 == open_topic
    && topic l 1 == order_id

-- Either loop: the first log that passes the tests.
unfoldable pub find_log : (Log → Bool) → List Log → Option Log
find_log test [] = none
find_log test (l ∷ ls) = let rest = find_log test ls in if test l then some l else rest

-- `AcrossDeposit` as the ABI decodes the data of its log: the tokens are 32 bytes.
pub record DepositData : Type 0 where
  pub input_token : ℕ
  pub output_token : ℕ
  pub input_amount : ℕ

pub record Deposit : Type 0 where
  pub fields : DepositData
  pub destination_chain_id : ℕ
  pub deposit_id : ℕ
  pub depositor : ℕ

pub record DepositFetcher : Type 0 where
  pub chain_id : ℕ
  pub token_store : TokenStore
  pub range : Range
  pub unpack : Text → Option DepositData
  pub destination_token : ℕ → Text → Option Address
  pub deposit_topic : ℕ

-- An output token of zero stands for the input token's counterpart on the destination.
abbrev pub output_token_of : DepositFetcher → DepositData → ℕ → Result LogError DepositData
output_token_of f d chain =
    if d.output_token == 0
    then elim (config_by_address f.range f.token_store f.chain_id (d.input_token % 2 ^ 160)) [
      | err e ↦ err unknown_token
      | ok (symbol, c) ↦ elim (f.destination_token chain symbol) [
        | none ↦ err no_destination_token
        | some a ↦ ok (record d { output_token = a })
      ]
    ]
    else ok d

-- `parseDeposit`
unfoldable pub parse_deposit : DepositFetcher → Log → Result LogError Deposit
unfolding config_by_address
parse_deposit f l = do
  d ← or_fail (f.unpack l.data_bytes) undecodable
  guard (not (ltb (length l.topics) 4)) missing_topics
  d' ← output_token_of f d (topic l 1)
  ok (record {
    fields = d';
    destination_chain_id = topic l 1;
    deposit_id = topic l 2;
    depositor = topic l 3;
  })

-- `Deposit`, on the logs of the receipt if there is one.
unfoldable pub fetch_deposit : DepositFetcher → Option (List Log) → ℤ → Result LogError Deposit
unfolding is_deposit find_log parse_deposit
fetch_deposit f receipt deposit_id = do
  logs ← or_fail receipt no_receipt
  l ← or_fail (find_log (is_deposit f.deposit_topic deposit_id) logs) not_found
  parse_deposit f l

-- `fetchOpenEvent`
unfoldable pub fetch_open_event : Address → ℕ → Option (List Log) → ℕ → Result LogError Log
unfolding is_open_event find_log
fetch_open_event input_settler open_topic receipt order_id = do
  logs ← or_fail receipt no_receipt
  or_fail (find_log (is_open_event input_settler open_topic order_id) logs) not_found

-- No log of a list passes the test.
abbrev pub NonePasses : (Log → Bool) → List Log → Type 0
NonePasses test [] = Unit {0}
NonePasses test (l ∷ ls) = (test l ≡ false) × NonePasses test ls

find_log-first :
    (test : Log → Bool) (before : List Log) (l : Log) (behind : List Log)
    → NonePasses test before
    → test l ≡ true
    → find_log test (before ++ l ∷ behind) ≡ some l
unfolding find_log
find_log-first test [] l behind n t = ground (arith, t)
find_log-first test (b ∷ before) l behind n t =
    ground (arith, n, find_log-first test before l behind n.1 t)

find_log-passes :
    (test : Log → Bool) (ls : List Log) (l : Log) → find_log test ls ≡ some l → test l ≡ true
unfolding find_log
find_log-passes test [] l e = ground arith
find_log-passes test (x ∷ ls) l e = step (Bool-cases (test x)) (find_log-passes test ls l)
  where
    step :
        (test x ≡ true) ⊎ (test x ≡ false)
        → (find_log test ls ≡ some l → test l ≡ true)
        → test l ≡ true
    step (inl t) rest = subst (λ y. test y ≡ true) (ground (arith, e, t)) t
    step (inr t) rest = rest (ground (arith, e, t))

-- The event that is found is the first log, not removed, of the settler's contract with the topic of the
-- event and the order's ID: later logs and those of other contracts are not looked at.
pub fetch_open_event_lem :
    (settler : Address) (open_topic order_id : ℕ) (before behind logs : List Log) (l : Log)
    → (NonePasses (is_open_event settler open_topic order_id) before
        → is_open_event settler open_topic order_id l ≡ true
        → fetch_open_event settler open_topic (some (before ++ l ∷ behind)) order_id ≡ ok l)
      × (fetch_open_event settler open_topic (some logs) order_id ≡ ok l
          → (l.removed ≡ false)
            × (l.address ≡ settler)
            × (topic l 0 ≡ open_topic)
            × (topic l 1 ≡ order_id))
unfolding fetch_open_event is_open_event
fetch_open_event_lem settler open_topic order_id before behind logs l = (
  λ n t.
      ground
        (arith, find_log-first (is_open_event settler open_topic order_id) before l behind n t),
  λ e. ground (arith, e, find_log-passes (is_open_event settler open_topic order_id) logs l),
)

-- The log as another contract would have written it.
abbrev pub relocate : Address → Log → Log
relocate a l = record l { address = a }

find_log-relocate :
    (a : Address) (deposit_topic : ℕ) (deposit_id : ℤ) (ls : List Log)
    → find_log (is_deposit deposit_topic deposit_id) (map (relocate a) ls)
      ≡ Option.map (relocate a) (find_log (is_deposit deposit_topic deposit_id) ls)
unfolding find_log is_deposit
find_log-relocate a deposit_topic deposit_id [] = refl
find_log-relocate a deposit_topic deposit_id (l ∷ ls) =
    ground (arith, find_log-relocate a deposit_topic deposit_id ls)

-- A deposit that is found has the low 256 bits of the absolute value of the ID that was asked for: that ID
-- itself, if it is neither negative nor 2 ^ 256 or more. The address of a log is not compared: logs
-- with the same contents that any other contract wrote give the same deposit.
pub fetch_deposit_lem :
    (f : DepositFetcher) (deposit_id : ℤ) (logs : List Log) (a : Address) (d : Deposit)
    → (fetch_deposit f (some logs) deposit_id ≡ ok d
        → (d.deposit_id ≡ magnitude deposit_id % 2 ^ 256)
          × ((n : ℕ) → deposit_id ≡ pos n → n < 2 ^ 256 → d.deposit_id ≡ n))
      × (fetch_deposit f (some (map (relocate a) logs)) deposit_id
          ≡ fetch_deposit f (some logs) deposit_id)
unfolding fetch_deposit parse_deposit is_deposit
fetch_deposit_lem f deposit_id logs a d = (
  λ e.
      let same = step (find_log (is_deposit f.deposit_topic deposit_id) logs) refl e in
      (same, λ n p b. ground (arith, same, p, b)),
  moved (find_log (is_deposit f.deposit_topic deposit_id) logs) refl,
)
  where
    step :
        (found : Option Log)
        → find_log (is_deposit f.deposit_topic deposit_id) logs ≡ found
        → fetch_deposit f (some logs) deposit_id ≡ ok d
        → d.deposit_id ≡ magnitude deposit_id % 2 ^ 256
    step none n e = ground (arith, e, n)
    step (some l) n e =
        ground (arith, e, n, find_log-passes (is_deposit f.deposit_topic deposit_id) logs l n)

    moved :
        (found : Option Log)
        → find_log (is_deposit f.deposit_topic deposit_id) logs ≡ found
        → fetch_deposit f (some (map (relocate a) logs)) deposit_id
          ≡ fetch_deposit f (some logs) deposit_id
    moved none n = rw (find_log-relocate a f.deposit_topic deposit_id logs) (rw n refl)
    moved (some l) n = rw (find_log-relocate a f.deposit_topic deposit_id logs) (rw n refl)
