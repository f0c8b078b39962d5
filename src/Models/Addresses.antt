-- ===== src/Models/Addresses.antt =====
-- Hosts and ports of src/models.rs, which the accessors of inputs and outputs compute alike.
use stream_gateway.Common.{ℕ, Bool, Option, none, some, List, [], ◌∷◌, ◌==◌, if◌then◌else◌}
use stream_gateway.Common.Texts.{Text, codes, is_empty, split, parse_u16}

-- `"0.0.0.0".to_string()`
abbrev pub any_host : Text
any_host = codes "0.0.0.0"

-- `.filter(|&p| p != 0)`
unfoldable pub nonzero : Option ℕ → Option ℕ
nonzero none = none
nonzero (some port) = if port == 0 then none else some port

-- `.filter(|h| !h.is_empty())`, written out in the source.
unfoldable pub nonempty : Text → Option Text
nonempty host = if is_empty host then none else some host

-- `.nth(1)` of the pieces of a split, which are the first piece and the list of the others.
unfoldable pub second : List Text → Option Text
second [] = none
second (piece ∷ pieces) = some piece

-- `and_then(|s| s.parse().ok())`
unfoldable pub parse_port : Option Text → Option ℕ
unfolding parse_u16
parse_port none = none
parse_port (some piece) = parse_u16 piece

-- The host that a request names: the new field, or else the legacy address up to its first colon.
unfoldable pub host_of : Option Text → Option Text → Option Text
unfolding nonempty split
host_of (some host) addr = nonempty host
host_of none (some addr) = some (split b':' addr).0
host_of none none = none

-- The port that a request names: the new field, or else the second piece of the legacy address.
unfoldable pub port_of : Option ℕ → Option Text → Option ℕ
unfolding nonzero parse_port second split
port_of (some port) addr = nonzero (some port)
port_of none (some addr) = parse_port (second (split b':' addr).1)
port_of none none = none

-- The three-way test of `automatic_port`, before `ports`.
unfoldable pub automatic : Option Bool → Bool → Bool
automatic (some flag) ports = flag
automatic none ports = ports
