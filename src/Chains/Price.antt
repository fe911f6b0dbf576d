-- ===== src/Chains/Price.antt =====
-- price/coinmarketcap.go: the prices of tokens, which the confirmation watcher asks for. The cache, the
-- HTTP client and encoding/json are parameters; a price is of a type `F`, float64.
use sprinter_signing.Base.{
  ℕ, ◌≡◌, ◌<◌, Option, none, some, ◌++◌, arith, Result, ok, err, ◌>>=◌, ◌>>◌, guard, or_fail, ◌==◌,
}
use sprinter_signing.Base.Dict.{Dict, lookup}
use sprinter_signing.Base.Text.{Text, bytes, text_eq_iff, text_key}
use sprinter_signing.Cache.Defs.{TtlCache, Laws}
use sprinter_signing.Protocol.Http.{HttpResponse, status_ok}

pub record CoinmarketcapResponse (F : Type 0) : Type 0 where
  pub error_code : ℕ
  pub prices : Dict Text F

pub data PriceError : Type 0 where
  not_requested unexpected_status not_read not_json : PriceError
  api_error : ℕ → PriceError

-- `PRICE_TTL`, in milliseconds.
abbrev pub price_ttl : ℕ
price_ttl = 3600000

module _ {F S : Type 0} (zero_price : F) (cache : TtlCache F S) where
  pub record CoinmarketcapApi : Type 0 where
    pub url : Text
    pub api_key : Text
    pub cache_state : S

  -- The client, for a URL and the API key, and the decoding of a body.
  pub record Client : Type 0 where
    pub get : Text → Text → Option HttpResponse
    pub unmarshal : Text → Option (CoinmarketcapResponse F)

  abbrev pub price_url : Text → Text → Text
  price_url url symbol = url ++ bytes "/v1/cryptocurrency/quotes/latest?symbol=" ++ symbol

  -- The price in the answer: the zero value where it has none for the symbol.
  abbrev pub quoted : Option F → F
  quoted none = zero_price
  quoted (some p) = p

  -- The part of `TokenPrice` that asks the service.
  unfoldable pub request_price : Client → CoinmarketcapApi → Text → Result PriceError F
  request_price client c symbol = do
    resp ← or_fail (client.get (price_url c.url symbol) c.api_key) not_requested
    guard (resp.status == status_ok) unexpected_status
    body ← or_fail resp.body not_read
    answer ← or_fail (client.unmarshal body) not_json
    guard (answer.error_code == 0) (api_error answer.error_code)
    ok (quoted (lookup symbol answer.prices))

  abbrev pub cached :
      Result PriceError F → Text → CoinmarketcapApi → Result PriceError F × CoinmarketcapApi
  cached (err e) symbol c = (err e, c)
  cached (ok p) symbol c = (ok p, record c { cache_state = cache.set symbol p c.cache_state })

  -- `TokenPrice`
  unfoldable pub token_price :
      Client → Text → CoinmarketcapApi → Result PriceError F × CoinmarketcapApi
  unfolding request_price
  token_price client symbol c =
      let (found, state) = cache.get symbol c.cache_state in
      let touched = record c { cache_state = state } in
      elim found [
        | some p ↦ (ok p, touched)
        | none ↦ cached (request_price client touched symbol) symbol touched
      ]

  -- A price that was returned is returned again, whatever the service says by then, while less than its
  -- time to live passes between the calls. In particular a zero price, which stands for a symbol that the
  -- answer lacks, is.
  pub token_price-again :
      (laws : Laws price_ttl cache) (client client' : Client) (symbol : Text) (c : CoinmarketcapApi)
      (p : F) (t : ℕ)
      → t < price_ttl
      → let (r, c') = token_price client symbol c in
        (cache.get symbol c.cache_state).0 ≡ none
        → (r ≡ ok p
            → (token_price client' symbol
                (record c' { cache_state = cache.wait t c'.cache_state })).0
              ≡ ok p)
          × ((body : Text) (answer : CoinmarketcapResponse F)
              → client.get (price_url c.url symbol) c.api_key
                ≡ some (record { status = status_ok; body = some body })
              → client.unmarshal body ≡ some answer
              → answer.error_code ≡ 0
              → lookup symbol answer.prices ≡ none
              → r ≡ ok zero_price)
  unfolding token_price request_price
  token_price-again laws client client' symbol c p t b n =
      let touched = (cache.get symbol c.cache_state).1 in
      let stored = cache.set symbol p touched in
      (
        λ r. ground (
          arith,
          n,
          r,
          b,
          laws.get_set symbol symbol p touched,
          laws.left_set symbol symbol p touched,
          laws.get_fresh symbol t stored,
          text_eq_iff symbol symbol,
        ),
        λ body answer g u e l. ground (arith, n, g, u, e, l),
      )
