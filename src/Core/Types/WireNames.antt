-- ===== src/Core/Types/WireNames.antt =====
-- The wire names of the four enumerations: what `..._from_string` accepts, and nothing else.
use bintrade.Prelude.{◌≡◌, ◌↔◌, refl, Text, str, text_eq, eq_of_text_eq, arith}
use bintrade.Core.Error.{ok}
use bintrade.Core.Types.{
  Side, OrderType, TimeInForce, OrderStatus, side_to_string, side_from_string, order_type_to_string,
  order_type_from_string, time_in_force_to_string, time_in_force_from_string,
  order_status_to_string, order_status_from_string, buy, limit, gtc, new,
}

side_round_trip : (x : Side) → side_from_string (side_to_string x) ≡ ok x
unfolding side_from_string side_to_string text_eq str
side_round_trip buy = refl
side_round_trip x = refl

pub side_sound : (s : Text) (x : Side) → side_from_string s ≡ ok x → s ≡ side_to_string x
unfolding side_from_string side_to_string
side_sound s x h = ground (arith, eq_of_text_eq s (str "BUY"), eq_of_text_eq s (str "SELL"))

order_type_round_trip : (x : OrderType) → order_type_from_string (order_type_to_string x) ≡ ok x
unfolding order_type_from_string order_type_to_string text_eq str
order_type_round_trip limit = refl
order_type_round_trip x = refl

pub order_type_sound :
    (s : Text) (x : OrderType) → order_type_from_string s ≡ ok x → s ≡ order_type_to_string x
unfolding order_type_from_string order_type_to_string
order_type_sound s x h = ground (
  arith,
  eq_of_text_eq s (str "LIMIT"),
  eq_of_text_eq s (str "MARKET"),
  eq_of_text_eq s (str "STOP_LOSS"),
  eq_of_text_eq s (str "STOP_LOSS_LIMIT"),
  eq_of_text_eq s (str "TAKE_PROFIT"),
  eq_of_text_eq s (str "TAKE_PROFIT_LIMIT"),
  eq_of_text_eq s (str "LIMIT_MAKER"),
)

time_in_force_round_trip :
    (x : TimeInForce) → time_in_force_from_string (time_in_force_to_string x) ≡ ok x
unfolding time_in_force_from_string time_in_force_to_string text_eq str
time_in_force_round_trip gtc = refl
time_in_force_round_trip x = refl

pub time_in_force_sound :
    (s : Text) (x : TimeInForce)
    → time_in_force_from_string s ≡ ok x
    → s ≡ time_in_force_to_string x
unfolding time_in_force_from_string time_in_force_to_string
time_in_force_sound s x h =
    ground
      (arith, eq_of_text_eq s (str "GTC"), eq_of_text_eq s (str "IOC"), eq_of_text_eq s (str "FOK"))

order_status_round_trip :
    (x : OrderStatus) → order_status_from_string (order_status_to_string x) ≡ ok x
unfolding order_status_from_string order_status_to_string text_eq str
order_status_round_trip new = refl
order_status_round_trip x = refl

pub order_status_sound :
    (s : Text) (x : OrderStatus) → order_status_from_string s ≡ ok x → s ≡ order_status_to_string x
unfolding order_status_from_string order_status_to_string
order_status_sound s x h = ground (
  arith,
  eq_of_text_eq s (str "NEW"),
  eq_of_text_eq s (str "PARTIALLY_FILLED"),
  eq_of_text_eq s (str "FILLED"),
  eq_of_text_eq s (str "CANCELED"),
  eq_of_text_eq s (str "PENDING_CANCEL"),
  eq_of_text_eq s (str "REJECTED"),
  eq_of_text_eq s (str "EXPIRED"),
)

-- A text is read as a member of an enumeration exactly when it is that member's wire name, for
-- the side, the order type, the time in force and the order status alike.
pub from_string-eq-ok :
    (s : Text) (side : Side) (type : OrderType) (tif : TimeInForce) (status : OrderStatus)
    → ((side_from_string s ≡ ok side) ↔ (s ≡ side_to_string side))
      × ((order_type_from_string s ≡ ok type) ↔ (s ≡ order_type_to_string type))
      × ((time_in_force_from_string s ≡ ok tif) ↔ (s ≡ time_in_force_to_string tif))
      × ((order_status_from_string s ≡ ok status) ↔ (s ≡ order_status_to_string status))
from_string-eq-ok s side type tif status = (
  (side_sound s side, λ e. rw e (side_round_trip side)),
  (order_type_sound s type, λ e. rw e (order_type_round_trip type)),
  (time_in_force_sound s tif, λ e. rw e (time_in_force_round_trip tif)),
  (order_status_sound s status, λ e. rw e (order_status_round_trip status)),
)
