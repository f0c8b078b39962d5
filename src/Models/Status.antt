-- ===== src/Models/Status.antt =====
-- `StreamStatus` of src/models.rs. `to_lowercase` is that of ASCII: a text with another character in it
-- is no status in either case.
use stream_gateway.Common.{
  ℕ, ◌+◌, ◌≡◌, refl, Bool, true, false, ◌&&◌, Option, none, some, map, leb, if◌then◌else◌,
}
use stream_gateway.Common.Texts.{Text, codes, text_eq}

pub data StreamStatus : Type 0 where
  stopped listening connecting connected reconnecting error : StreamStatus

-- `fmt::Display for StreamStatus`
unfoldable pub to_string : StreamStatus → Text
to_string StreamStatus.stopped = codes "stopped"
to_string StreamStatus.listening = codes "listening"
to_string StreamStatus.connecting = codes "connecting"
to_string StreamStatus.connected = codes "connected"
to_string StreamStatus.reconnecting = codes "reconnecting"
to_string StreamStatus.error = codes "error"

abbrev pub lower : ℕ → ℕ
lower c = if leb b'A' c && leb c b'Z' then c + 32 else c

abbrev pub to_lowercase : Text → Text
to_lowercase = map lower

-- The `match` of `from_str`, on the lowered text; `none` is the error.
unfoldable pub status_named : Text → Option StreamStatus
unfolding text_eq
status_named s =
    if text_eq s (codes "stopped")
    then some StreamStatus.stopped
    else if text_eq s (codes "listening")
    then some StreamStatus.listening
    else if text_eq s (codes "connecting")
    then some StreamStatus.connecting
    else if text_eq s (codes "connected")
    then some StreamStatus.connected
    else if text_eq s (codes "reconnecting")
    then some StreamStatus.reconnecting
    else if text_eq s (codes "error")
    then some StreamStatus.error
    else if text_eq s (codes "running")
    then some StreamStatus.connected
    else none

-- `FromStr for StreamStatus`
unfoldable pub from_str : Text → Option StreamStatus
unfolding status_named
from_str s = status_named (to_lowercase s)

unfoldable pub is_connected : StreamStatus → Bool
is_connected StreamStatus.connected = true
is_connected _ = false

unfoldable pub is_active : StreamStatus → Bool
is_active StreamStatus.listening = true
is_active StreamStatus.connecting = true
is_active StreamStatus.connected = true
is_active StreamStatus.reconnecting = true
is_active _ = false

-- A status is read back from what is printed of it.
pub from_str-to_string : (s : StreamStatus) → from_str (to_string s) ≡ some s
unfolding from_str to_string
from_str-to_string StreamStatus.stopped = refl
from_str-to_string _ = refl
