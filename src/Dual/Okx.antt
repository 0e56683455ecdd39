-- ===== src/Dual/Okx.antt =====
-- The price of OKX, `fetchOKXPrice` and `parseFloatPrice` of pkg/positionmanager/pricefeed_dual.go. The
-- HTTP client, encoding/json and the floating-point numbers of math/big are parameters.
use dex_limit_order_manager.Prelude.{ℕ, ◌^◌, Option, List, [], ◌∷◌, if◌then◌else◌, take}
use dex_limit_order_manager.Prelude.Int.{ℤ, pos}
use Prim.Native.String.{String}
use text.Mathlib.Text.{◌==◌}
use dex_limit_order_manager.Types.{TokenPair}
use dex_limit_order_manager.Errors.{
  Result, ok, err, no_pool, okx_error, no_okx_price, invalid_price, require, from_option, ◌>>=◌,
  ◌>>◌,
}
use dex_limit_order_manager.Feed.{PoolConfig, same_price}

-- `OKXConfig`; the timeout is in nanoseconds.
pub record OkxConfig : Type 0 where
  pub base_url : String
  pub chain_index : String
  pub timeout : ℤ
  pub poll_interval : ℤ

-- What the URL of a quote is formatted from, and the client's timeout.
pub record OkxQuery : Type 0 where
  pub base_url : String
  pub chain_index : String
  pub from_token : ℕ
  pub to_token : ℕ
  pub timeout : ℤ

-- `okxTickerResponse`, as far as the code reads it: of each entry its last price.
pub record OkxTickerResponse : Type 0 where
  pub code : String
  pub last_prices : List String

-- math/big's `Float` as `parseFloatPrice` uses it: `SetString`, and `Int(nil)`, which is nil for an
-- infinity.
pub record FloatText : Type 1 where
  pub Float : Type 0
  pub set_string : String → Option Float
  pub e8 : Float
  pub half : Float
  pub mul : Float → Float → Float
  pub add : Float → Float → Float
  pub truncate : Float → Option ℤ

-- `parseFloatPrice`: the price is nil for the text of an infinity, and no error is returned.
unfoldable pub parse_float_price : FloatText → String → Result (Option ℤ)
parse_float_price fl s = do
  f ← from_option (FloatText.set_string fl s) invalid_price
  ok (
      FloatText.truncate fl
        (FloatText.add fl (FloatText.mul fl f (FloatText.e8 fl)) (FloatText.half fl)))

abbrev with_default : String → String → String
with_default default given = if given == "" then default else given

-- The default of five seconds.
abbrev with_timeout : ℤ → ℤ
with_timeout given = if same_price given (pos 0) then pos 5_000_000_000 else given

-- The first entry of the response has a price.
first_last : List String → Result String
first_last [] = err okx_error
first_last (last ∷ rest) = if last == "" then err no_okx_price else ok last

-- `fetchOKXPrice`: `http_get` gives the bytes of the body, of which the code reads 2 ^ 20 at most.
unfoldable pub fetch_okx_price :
    FloatText
    → (http_get : OkxQuery → Result (List ℕ)) → (unmarshal : List ℕ → Result OkxTickerResponse)
    → OkxConfig
    → (TokenPair → Option PoolConfig)
    → TokenPair
    → Result (Option ℤ)
unfolding parse_float_price first_last
fetch_okx_price fl http_get unmarshal cfg pools pair = do
  pool ← from_option (pools pair) no_pool
  body ← http_get (record {
    base_url = with_default "https://www.okx.com" cfg.base_url;
    chain_index = cfg.chain_index;
    from_token = pair.base;
    to_token = pair.quote;
    timeout = with_timeout cfg.timeout;
  })
  response ← unmarshal (take (2 ^ 20) body)
  require (response.code == "0") okx_error
  last ← first_last response.last_prices
  parse_float_price fl last

-- The interval of `runOKXPoller`.
abbrev pub okx_interval : OkxConfig → ℤ
okx_interval cfg =
    if same_price cfg.poll_interval (pos 0) then pos 10_000_000_000 else cfg.poll_interval
