-- ===== src/Rest/Url.antt =====
-- `ParsedUrl::from` of src/rest/detail/http_client.cpp and `ParsedWssUrl::from` of
-- src/ws/detail/websocket_client.cpp. Both cut the authority out of the URL by the same code, here
-- `authority`.
pub mod RoundTrip
use bintrade.Prelude.{
  ℕ, ◌+◌, ◌-◌, Text, str, text_eq, Option, none, some, length, ltb, ◌&&◌, if◌then◌else◌, find,
  find_from, substr, ◌++◌, Bool, true, false, take,
}
use bintrade.Core.Error.{Result, ok, err, invalid_argument}

pub record ParsedUrl : Type 0 where
  pub scheme : Text
  pub host : Text
  pub port : Text

pub record ParsedWssUrl : Type 0 where
  pub host : Text
  pub port : Text

-- `path_pos`, which is the end of the URL where there is no path.
abbrev pub path_pos : Text → Option ℕ → ℕ
path_pos url none = length url
path_pos url (some pos) = pos

-- The host and the port of `url` from `host_start` on, given `port_pos` and `path_pos`.
abbrev pub cut_authority : Text → ℕ → Option ℕ → ℕ → Text → Text × Text
cut_authority url host_start none end default_port =
    (substr url host_start (end - host_start), default_port)
cut_authority url host_start (some colon) end default_port =
    if ltb colon end
    then (substr url host_start (colon - host_start), substr url (colon + 1) (end - colon - 1))
    else (substr url host_start (end - host_start), default_port)

unfoldable pub authority : Text → ℕ → Text → Text × Text
authority url host_start default_port =
    cut_authority url host_start (find_from b':' url host_start)
      (path_pos url (find_from b'/' url host_start)) default_port

-- `(result.scheme == "https") ? "443" : "80"`
unfoldable pub default_port : Text → Text
default_port scheme = if text_eq scheme (str "https") then str "443" else str "80"

unfoldable pub parse_url : Text → Result ParsedUrl
parse_url url = elim (find (str "://") url) [
  | none ↦ err (invalid_argument (str "Invalid base_url: " ++ url))
  | some pos ↦
      let scheme = take pos url in
      let (host, port) = authority url (pos + 3) (default_port scheme) in
      ok (record { scheme = scheme; host = host; port = port })
]

pub parse_wss_url : Text → Result ParsedWssUrl
parse_wss_url url = elim (find (str "://") url) [
  | none ↦ err (invalid_argument (str "Invalid WebSocket URL: " ++ url))
  | some pos ↦
      let (host, port) = authority url (pos + 3) (str "443") in
      ok (record { host = host; port = port })
]
