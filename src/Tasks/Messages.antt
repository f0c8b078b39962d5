-- ===== src/Tasks/Messages.antt =====
-- What the tasks send: state changes, packets on the broadcast channel, and calls of src/metrics.rs.
use stream_gateway.Common.{ℕ, ◌≡◌, refl, ap, List, [], ◌∷◌, ◌++◌}
use stream_gateway.Common.Texts.{Text}
use stream_gateway.StateProcessor.Handlers.{StateChange}

pub data Message : Type 0 where
  change : StateChange → Message
  packet : List ℕ → Message
  record_bytes : (count : ℕ) → Message
  record_packets : (count : ℕ) → Message
  stream_error : Text → Message

-- The state changes among the messages.
abbrev pub changes : List Message → List StateChange
changes [] = []
changes (change c ∷ messages) = c ∷ changes messages
changes (m ∷ messages) = changes messages

-- The packets among the messages.
abbrev pub packets : List Message → List (List ℕ)
packets [] = []
packets (packet p ∷ messages) = p ∷ packets messages
packets (m ∷ messages) = packets messages

pub changes-append : (a b : List Message) → changes (a ++ b) ≡ changes a ++ changes b
changes-append [] b = refl
changes-append (change c ∷ a) b = ap (◌∷◌ c) (changes-append a b)
changes-append (packet p ∷ a) b = changes-append a b
changes-append (record_bytes n ∷ a) b = changes-append a b
changes-append (record_packets n ∷ a) b = changes-append a b
changes-append (stream_error t ∷ a) b = changes-append a b

pub packets-append : (a b : List Message) → packets (a ++ b) ≡ packets a ++ packets b
packets-append [] b = refl
packets-append (change c ∷ a) b = packets-append a b
packets-append (packet p ∷ a) b = ap (◌∷◌ p) (packets-append a b)
packets-append (record_bytes n ∷ a) b = packets-append a b
packets-append (record_packets n ∷ a) b = packets-append a b
packets-append (stream_error t ∷ a) b = packets-append a b
