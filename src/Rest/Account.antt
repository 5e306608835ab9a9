-- ===== src/Rest/Account.antt =====
-- src/rest/account_client.cpp: the account and its trades.
pub mod Async
use bintrade.Prelude.{ℤ, List, Text, str}
use bintrade.Models.{AccountInfo, AccountTrade}
use bintrade.Rest.Parse.{parse_response, collect}
use bintrade.Rest.Parse.Orders.{parse_account_info, parse_account_trade}
use bintrade.Rest.Client.{Platform, Act, ◌>>=◌, lift, signed_get}

module _ (P : Platform) where
  open P use {json, map, int_text}
  open map use {Map, empty, assign}
  open json use {Double, items}

  unfoldable pub get_account_info : Act (AccountInfo Double)
  unfolding ◌>>=◌
  get_account_info = do
    body ← signed_get P (str "/api/v3/account") empty
    j ← lift (parse_response json 200 body)
    lift (parse_account_info json j)

  pub get_account_trades : Text → ℤ → Act (List (AccountTrade Double))
  unfolding ◌>>=◌
  get_account_trades symbol limit = do
    body ←
        signed_get P (str "/api/v3/myTrades")
          (assign (assign empty (str "symbol") symbol) (str "limit") (int_text limit))
    j ← lift (parse_response json 200 body)
    lift (collect (parse_account_trade json) (items j))
