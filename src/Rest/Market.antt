-- ===== src/Rest/Market.antt =====
-- src/rest/market_data_client.cpp: the public market data.
pub mod Async
use bintrade.Prelude.{ℤ, List, Text, str}
use bintrade.Models.{OrderBook, Trade, Kline, Ticker24h, Ticker}
use bintrade.Rest.Parse.{
  parse_response, parse_order_book, parse_trade, parse_kline, parse_ticker_24h, parse_ticker,
  collect,
}
use bintrade.Rest.Client.{Platform, Act, ◌>>=◌, lift, public_get}

module _ (P : Platform) where
  open P use {json, map, int_text}
  open map use {Map, empty, assign}
  open json use {Double, items}

  unfoldable pub get_order_book : Text → ℤ → Act (OrderBook Double)
  unfolding ◌>>=◌
  get_order_book symbol limit = do
    body ←
        public_get P (str "/api/v3/depth")
          (assign (assign empty (str "symbol") symbol) (str "limit") (int_text limit))
    j ← lift (parse_response json 200 body)
    lift (parse_order_book json j symbol)

  pub get_recent_trades : Text → ℤ → Act (List (Trade Double))
  unfolding ◌>>=◌
  get_recent_trades symbol limit = do
    body ←
        public_get P (str "/api/v3/trades")
          (assign (assign empty (str "symbol") symbol) (str "limit") (int_text limit))
    j ← lift (parse_response json 200 body)
    lift (collect (parse_trade json) (items j))

  pub get_klines : Text → Text → ℤ → Act (List (Kline Double))
  unfolding ◌>>=◌
  get_klines symbol interval limit = do
    body ← public_get P (str "/api/v3/klines") (
        assign (assign (assign empty (str "symbol") symbol) (str "interval") interval) (str "limit")
          (int_text limit))
    j ← lift (parse_response json 200 body)
    lift (collect (parse_kline json) (items j))

  pub get_ticker_24h : Text → Act (Ticker24h Double)
  unfolding ◌>>=◌
  get_ticker_24h symbol = do
    body ← public_get P (str "/api/v3/ticker/24hr") (assign empty (str "symbol") symbol)
    j ← lift (parse_response json 200 body)
    lift (parse_ticker_24h json j)

  pub get_price_ticker : Text → Act (Ticker Double)
  unfolding ◌>>=◌
  get_price_ticker symbol = do
    body ← public_get P (str "/api/v3/ticker/price") (assign empty (str "symbol") symbol)
    j ← lift (parse_response json 200 body)
    lift (parse_ticker json j)

  pub get_all_price_tickers : Act (List (Ticker Double))
  unfolding ◌>>=◌
  get_all_price_tickers = do
    body ← public_get P (str "/api/v3/ticker/price") empty
    j ← lift (parse_response json 200 body)
    lift (collect (parse_ticker json) (items j))
