-- ===== src/Auth/Credentials.antt =====
-- src/auth/credentials.cpp: a key and a secret that are overwritten before they are dropped.
pub mod Wipe
use bintrade.Prelude.{
  ℕ, Bool, true, false, List, [], ◌++◌, Option, none, some, Text, length, take, drop, replicate,
  ◌==◌, if◌then◌else◌,
}

-- A `std::string` by the bytes of its buffer and its size: what `clear()` leaves in the buffer stays
-- there.
pub record Buffer : Type 0 where
  pub memory : List ℕ
  pub size : ℕ

abbrev pub buffer_of : Text → Buffer
buffer_of text = record { memory = text; size = length text }

pub view : Buffer → Text
view b = take b.size b.memory

-- `if (!s.empty()) { std::memset(s.data(), 0, s.size()); s.clear(); }`
pub wipe : Buffer → Buffer
wipe b =
    if b.size == 0
    then b
    else record { memory = replicate b.size 0 ++ drop b.size b.memory; size = 0 }

-- `Credentials::Impl`
pub record Keys : Type 0 where
  pub key : Buffer
  pub secret : Buffer

-- `Impl::clear`
pub clear_keys : Keys → Keys
clear_keys keys = record { key = wipe keys.key; secret = wipe keys.secret }

-- `Credentials`, by what `impl_` points to.
abbrev pub Credentials : Type 0
Credentials = Option Keys

abbrev pub make_credentials : Text → Text → Credentials
make_credentials key secret = some (record { key = buffer_of key; secret = buffer_of secret })

abbrev pub has_credentials : Credentials → Bool
has_credentials none = false
has_credentials (some keys) = true

abbrev pub api_key : Credentials → Text
api_key none = []
api_key (some keys) = view keys.key

abbrev pub api_secret : Credentials → Text
api_secret none = []
api_secret (some keys) = view keys.secret

pub clear : Credentials → Credentials
clear none = none
clear (some keys) = some (clear_keys keys)
