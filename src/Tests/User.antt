-- ===== src/Tests/User.antt =====
-- Examples for the listen key of the user stream.
use bintrade.Prelude.{
  inl, ℕ, Text, none, text_eq, lookup, ◌≡◌, refl, [], ◌∷◌, str, length, ◌==◌, if◌then◌else◌,
}
use bintrade.Core.Error.{err, ok, network_exception, terminated}
use bintrade.Auth.Credentials.{make_credentials, api_key}
use bintrade.Rest.Client.{Platform}
use bintrade.Rest.Parse.{parse_response}
use bintrade.Rest.Pool.{
  acquire, acquire_begin, take_idle, append_slot, after_connect, connect_done, mark_connected,
}
use bintrade.Rest.Pool.Request.{execute, attempts, round, serve}
use bintrade.Rest.Http.{build_response, HttpRequest, WireResponse, verb_post}
use bintrade.Rest.Http.Transport.{
  HttpClient, set_api_key, perform, attempt_of, outcome_of, answer_of, over,
}
use bintrade.Rest.Http.Transport.Answers.{Requests, AnsweredBy}
use bintrade.Ws.Socket.{Config, connect, make_socket}
use bintrade.Ws.User.ListenKey.{Listens, Names, start-Answered}
use bintrade.Tests.Wire.{plain_fields}
use bintrade.Tests.Network.{flaky, fresh}
use bintrade.Ws.User.{
  start, UserStream, make_user_stream, timed_out, told_to_stop, keep_alive_thread,
}
use bintrade.Ws.User.KeepAlive.{renewal, renewals, keep_alive_thread-failed}
use bintrade.Tests.Sample.{calm, newest_first, answer}

-- A server that answers the first renewal alone.
abbrev failing : Platform
failing = record calm {
  http = λ rs. if length rs == 1 then ok answer else err (network_exception (str "eof"));
}

abbrev keyed : UserStream
keyed = record (make_user_stream (make_credentials (str "key") (str "secret"))) {
  listen_key = b'k' ∷ [];
}

keep_alive_thread-failed_example :
    let end = keep_alive_thread failing (timed_out ∷ timed_out ∷ told_to_stop ∷ []) keyed in
    (end.0 ≡ err terminated)
    × (end.1.requests ≡ renewal failing (b'k' ∷ []) ∷ renewals failing (b'k' ∷ []) 1 keyed.requests)
unfolding make_user_stream
keep_alive_thread-failed_example =
    keep_alive_thread-failed failing 1 b'k' [] (told_to_stop ∷ []) keyed refl
      ((answer, refl, inl refl), tt) (inl (network_exception (str "eof"), refl))

abbrev config : Config
config = record { reconnect_interval = 5; max_reconnect_attempts = 3 }

abbrev number_text : ℕ → Text
number_text n = str "1"

abbrev new_stream : UserStream
new_stream = make_user_stream (make_credentials (str "key") (str "secret"))

abbrev client : HttpClient
client = set_api_key (api_key new_stream.credentials) fresh

abbrev platform : Platform
platform = over plain_fields newest_first flaky client calm

start-Answered_example :
    (key : Text) × (req : HttpRequest plain_fields) × (res : WireResponse) × (client.api_key
      ≡ api_key new_stream.credentials)
    × Requests plain_fields newest_first flaky client verb_post (str "/api/v3/userDataStream") req
    × AnsweredBy plain_fields newest_first flaky 0 req res
    × Names calm res.body key
    × Listens key (start platform config number_text none new_stream).1
unfolding make_user_stream start connect parse_response str text_eq lookup answer_of perform
    attempt_of outcome_of execute attempts round serve acquire acquire_begin take_idle append_slot
    after_connect connect_done mark_connected build_response make_socket set_api_key
start-Answered_example =
    start-Answered plain_fields newest_first flaky calm config number_text client none new_stream
      refl refl
