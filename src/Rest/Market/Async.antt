-- ===== src/Rest/Market/Async.antt =====
-- The coroutines of src/rest/market_data_client.cpp, and that they do what the blocking calls do.
use bintrade.Prelude.{ℤ, ◌≡◌, List, Text, str}
use bintrade.Core.Error.{bound}
use bintrade.Models.{OrderBook, Trade, Kline, Ticker24h, Ticker}
use bintrade.Rest.Parse.{
  parse_response, parse_order_book, parse_trade, parse_kline, parse_ticker_24h, parse_ticker,
  collect,
}
use bintrade.Rest.Client.{Platform, Client, ◌>>=◌}
use bintrade.Rest.Client.Async.{Coroutine, co_await}
use bintrade.Rest.Client.Async.Calls.{async_public_get}
use bintrade.Rest.Client.Async.Blocking.{public_get-parsed, run_blocking}
use bintrade.Rest.Market.{
  get_order_book, get_recent_trades, get_klines, get_ticker_24h, get_price_ticker,
  get_all_price_tickers,
}

module _ (P : Platform) where
  open P use {json, map, int_text}
  open map use {Map, empty, assign}
  open json use {Double, items}

  pub async_get_order_book : Text → ℤ → Coroutine (OrderBook Double)
  async_get_order_book symbol limit =
      co_await
        (async_public_get P (str "/api/v3/depth")
          (assign (assign empty (str "symbol") symbol) (str "limit") (int_text limit)))
        (λ body. bound (parse_response json 200 body) (λ j. parse_order_book json j symbol))

  pub async_get_recent_trades : Text → ℤ → Coroutine (List (Trade Double))
  async_get_recent_trades symbol limit =
      co_await
        (async_public_get P (str "/api/v3/trades")
          (assign (assign empty (str "symbol") symbol) (str "limit") (int_text limit)))
        (λ body. bound (parse_response json 200 body) (λ j. collect (parse_trade json) (items j)))

  pub async_get_klines : Text → Text → ℤ → Coroutine (List (Kline Double))
  async_get_klines symbol interval limit =
      co_await
        (async_public_get P (str "/api/v3/klines") (
          assign (assign (assign empty (str "symbol") symbol) (str "interval") interval)
            (str "limit") (int_text limit)))
        (λ body. bound (parse_response json 200 body) (λ j. collect (parse_kline json) (items j)))

  pub async_get_ticker_24h : Text → Coroutine (Ticker24h Double)
  async_get_ticker_24h symbol =
      co_await (async_public_get P (str "/api/v3/ticker/24hr") (assign empty (str "symbol") symbol))
        (λ body. bound (parse_response json 200 body) (parse_ticker_24h json))

  pub async_get_price_ticker : Text → Coroutine (Ticker Double)
  async_get_price_ticker symbol =
      co_await
        (async_public_get P (str "/api/v3/ticker/price") (assign empty (str "symbol") symbol))
        (λ body. bound (parse_response json 200 body) (parse_ticker json))

  pub async_get_all_price_tickers : Coroutine (List (Ticker Double))
  async_get_all_price_tickers =
      co_await (async_public_get P (str "/api/v3/ticker/price") empty)
        (λ body. bound (parse_response json 200 body) (λ j. collect (parse_ticker json) (items j)))

  -- Where nothing runs during the wait, the coroutines of the market data client give the result and
  -- leave the client behind that the blocking calls do.
  pub run_blocking-market :
      (symbol interval : Text) (limit : ℤ) (c : Client)
      → (run_blocking P (async_get_order_book symbol limit) c ≡ get_order_book P symbol limit c)
        × (run_blocking P (async_get_recent_trades symbol limit) c
            ≡ get_recent_trades P symbol limit c)
        × (run_blocking P (async_get_klines symbol interval limit) c
            ≡ get_klines P symbol interval limit c)
        × (run_blocking P (async_get_ticker_24h symbol) c ≡ get_ticker_24h P symbol c)
        × (run_blocking P (async_get_price_ticker symbol) c ≡ get_price_ticker P symbol c)
        × (run_blocking P async_get_all_price_tickers c ≡ get_all_price_tickers P c)
  unfolding async_get_order_book async_get_recent_trades async_get_klines async_get_ticker_24h
      async_get_price_ticker async_get_all_price_tickers get_order_book get_recent_trades get_klines
      get_ticker_24h get_price_ticker get_all_price_tickers ◌>>=◌
  run_blocking-market symbol interval limit c = (
    public_get-parsed P (str "/api/v3/depth") _ (λ j. parse_order_book json j symbol) c,
    public_get-parsed P (str "/api/v3/trades") _ (λ j. collect (parse_trade json) (items j)) c,
    public_get-parsed P (str "/api/v3/klines") _ (λ j. collect (parse_kline json) (items j)) c,
    public_get-parsed P (str "/api/v3/ticker/24hr") _ (parse_ticker_24h json) c,
    public_get-parsed P (str "/api/v3/ticker/price") _ (parse_ticker json) c,
    public_get-parsed P (str "/api/v3/ticker/price") _ (λ j. collect (parse_ticker json) (items j))
        c,
  )
