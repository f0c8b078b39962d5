-- ===== src/PortUtils/Auto.antt =====
-- `should_use_auto_port_input` and `should_use_auto_port_output` of src/port_utils.rs.
use mathlib.Core.List.{reverse}
use stream_gateway.Common.{
  ℕ, Bool, true, false, ◌||◌, Option, none, some, [], ◌∷◌, ◌==◌, if◌then◌else◌,
}
use stream_gateway.Common.Texts.{Text, codes, text_eq}

unfoldable pub should_use_auto_port_input : Option ℕ → Option ℕ → Bool
should_use_auto_port_input none none = true
should_use_auto_port_input (some bind_port) none = bind_port == 0
should_use_auto_port_input none (some legacy_listen_port) = legacy_listen_port == 0
should_use_auto_port_input (some bind_port) (some legacy_listen_port) = bind_port == 0

-- `str::starts_with`
unfoldable pub starts_with : Text → Text → Bool
starts_with s [] = true
starts_with [] (c ∷ p) = false
starts_with (d ∷ s) (c ∷ p) = if d == c then starts_with s p else false

-- `str::ends_with`
unfoldable pub ends_with : Text → Text → Bool
unfolding starts_with
ends_with s suffix = starts_with (reverse s) (reverse suffix)

-- The test of the legacy address: `addr == "auto" || addr.ends_with(":0") || addr == ":0"`.
unfoldable pub legacy_auto : Option Text → Bool
unfolding ends_with text_eq
legacy_auto none = false
legacy_auto (some addr) =
    text_eq addr (codes "auto") || ends_with addr (codes ":0") || text_eq addr (codes ":0")

-- The `match` on the new fields.
unfoldable pub ports_auto : Option ℕ → Option ℕ → Bool
ports_auto none none = true
ports_auto (some remote_port) none = remote_port == 0
ports_auto none (some bind_port) = bind_port == 0
ports_auto (some remote_port) (some bind_port) = remote_port == 0 || bind_port == 0

unfoldable pub should_use_auto_port_output : Option ℕ → Option ℕ → Option Text → Bool
unfolding legacy_auto ports_auto
should_use_auto_port_output remote_port bind_port legacy_addr =
    if legacy_auto legacy_addr then true else ports_auto remote_port bind_port
