-- ===== src/Tests/Network.antt =====
-- Examples for the HTTP client above a network.
use bintrade.Prelude.{
  leb, false, ◌⊎◌, ◌≡◌, refl, [], ◌∷◌, none, str, ◌==◌, if◌then◌else◌, text_eq, find, find_from,
  starts_with, index,
}
use bintrade.Core.Config.{default_rest_config}
use bintrade.Core.Error.{ok}
use bintrade.Rest.Url.{parse_url, authority, default_port}
use bintrade.Rest.Pool.{
  acquire, acquire_begin, take_idle, append_slot, after_connect, connect_done, mark_connected,
}
use bintrade.Rest.Pool.Request.{execute, attempts, round, serve}
use bintrade.Rest.Client.{
  make_client, Request, get, public_get, body_of, ◌>>=◌, ◌>>◌, after, transport, update_rate_limits,
}
use bintrade.Rest.Query.Written.{written_target}
use bintrade.Rest.Parse.Errors.{IsNoError}
use bintrade.Rest.Http.{HttpRequest, verb_get, WireResponse, build_response}
use bintrade.Rest.Http.Transport.{
  Network, answered, broken, HttpClient, default_pool_size, make_http_client, perform, attempt_of,
  outcome_of, set_api_key, answer_of,
}
use bintrade.Rest.Http.Transport.Answers.{Requests, AnsweredBy, public_get-Answered}
use bintrade.Rest.Http.Transport.Sequential.{step_once, open_after}
use bintrade.Rest.Http.Transport.Agrees.{answer_of-make_http_client}
use bintrade.Tests.Sample.{calm, newest_first}
use bintrade.Tests.Wire.{plain_fields}

abbrev pub pong : WireResponse
pong = record { result_int = 200; fields = []; body = str "{}" }

-- A network that breaks the first exchange of the second request.
abbrev pub flaky : Network plain_fields
flaky = record {
  connect_error = λ n k. none;
  exchange = λ n k req. if n == 1 then broken (str "eof") else answered pong;
}

abbrev pub fresh : HttpClient
fresh = record {
  parsed_url = record { scheme = str "https"; host = str "api.binance.com"; port = str "443" };
  api_key = [];
  pool = record { pool_size = 4; slots = []; next_id = 0 };
  performed = 0;
}

abbrev p : Request
p = get (str "/p") []

fresh-made : make_http_client default_rest_config default_pool_size ≡ ok fresh
unfolding make_http_client parse_url str authority default_port find find_from starts_with index
    text_eq
fresh-made = refl

answer_of-make_http_client_example :
    answer_of plain_fields newest_first flaky (set_api_key (str "key") fresh) (p ∷ p ∷ [])
    ≡ (step_once plain_fields newest_first flaky
        (set_api_key (str "key") fresh)
        (p ∷ [])
        p
        (open_after plain_fields newest_first flaky (set_api_key (str "key") fresh) (p ∷ []))).0
answer_of-make_http_client_example =
    answer_of-make_http_client plain_fields newest_first flaky default_rest_config (str "key")
      default_pool_size fresh p (p ∷ []) fresh-made

public_get-Answered_example :
    (req : HttpRequest plain_fields) × (res : WireResponse) × Requests plain_fields newest_first
      flaky fresh verb_get
      (written_target (str "/p") [])
      req
    × AnsweredBy plain_fields newest_first flaky 0 req res
    × (str "{}" ≡ res.body)
    × ((leb 400 res.result_int ≡ false) ⊎ IsNoError calm.json res.body)
unfolding make_client str public_get body_of ◌>>=◌ ◌>>◌ after transport update_rate_limits answer_of
    perform attempt_of outcome_of execute attempts round serve acquire acquire_begin take_idle
    append_slot after_connect connect_done mark_connected build_response
public_get-Answered_example =
    public_get-Answered plain_fields newest_first flaky calm fresh (str "/p") [] (make_client none)
      (str "{}") refl
