-- ===== src/Rest/Account/Async.antt =====
-- The coroutines of src/rest/account_client.cpp, and that they do what the blocking calls do.
use bintrade.Prelude.{ℤ, ◌≡◌, List, Text, str}
use bintrade.Core.Error.{bound}
use bintrade.Models.{AccountInfo, AccountTrade}
use bintrade.Rest.Parse.{parse_response, collect}
use bintrade.Rest.Parse.Orders.{parse_account_info, parse_account_trade}
use bintrade.Rest.Client.{Platform, Client, ◌>>=◌}
use bintrade.Rest.Client.Async.{Coroutine, co_await}
use bintrade.Rest.Client.Async.Calls.{async_signed_get}
use bintrade.Rest.Client.Async.Blocking.{signed_get-parsed, run_blocking}
use bintrade.Rest.Account.{get_account_info, get_account_trades}

module _ (P : Platform) where
  open P use {json, map, int_text}
  open map use {Map, empty, assign}
  open json use {Double, items}

  pub async_get_account_info : Coroutine (AccountInfo Double)
  async_get_account_info =
      co_await (async_signed_get P (str "/api/v3/account") empty)
        (λ body. bound (parse_response json 200 body) (parse_account_info json))

  pub async_get_account_trades : Text → ℤ → Coroutine (List (AccountTrade Double))
  async_get_account_trades symbol limit =
      co_await
        (async_signed_get P (str "/api/v3/myTrades")
          (assign (assign empty (str "symbol") symbol) (str "limit") (int_text limit)))
        (λ body.
          bound (parse_response json 200 body) (λ j. collect (parse_account_trade json) (items j)))

  -- Where nothing runs during the wait, the coroutines of the account client give the result and
  -- leave the client behind that the blocking calls do.
  pub run_blocking-account :
      (symbol : Text) (limit : ℤ) (c : Client)
      → (run_blocking P async_get_account_info c ≡ get_account_info P c)
        × (run_blocking P (async_get_account_trades symbol limit) c
            ≡ get_account_trades P symbol limit c)
  unfolding async_get_account_info async_get_account_trades get_account_info get_account_trades
      ◌>>=◌
  run_blocking-account symbol limit c = (
    signed_get-parsed P (str "/api/v3/account") _ (parse_account_info json) c,
    signed_get-parsed P (str "/api/v3/myTrades") _
        (λ j. collect (parse_account_trade json) (items j)) c,
  )
