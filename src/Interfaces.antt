-- ===== src/Interfaces.antt =====
-- src/interfaces.rs: the addresses of the system's network interfaces. How a text is parsed as an
-- address, how an address is printed and what interfaces there are is the argument `Net`: the
-- standard library's `IpAddr` and the package `if_addrs`.
pub mod Laws
use stream_gateway.Common.{
  ℕ, ◌≡◌, Bool, true, false, not, ◌&&◌, ◌||◌, Option, none, some, List, [], ◌∷◌, leb, ◌==◌,
  if◌then◌else◌, is_some,
}
use stream_gateway.Common.Texts.{Text, codes, text_eq}

-- The octets of an IPv4 address, and the segments of an IPv6 address as one number.
pub data IpAddr : Type 0 where
  v4 : (a b c d : ℕ) → IpAddr
  v6 : ℕ → IpAddr

-- The derived `PartialEq`.
unfoldable pub ip_eq : IpAddr → IpAddr → Bool
ip_eq (v4 a b c d) (v4 a' b' c' d') = a == a' && b == b' && c == c' && d == d'
ip_eq (v6 n) (v6 m) = n == m
ip_eq _ _ = false

-- `if_addrs::Interface`, as far as it is read.
pub record Interface : Type 0 where
  pub name : Text
  pub addr : IpAddr
  pub is_loopback : Bool

pub record Net : Type 0 where
  -- `str::parse::<IpAddr>`, `IpAddr::to_string` and `IpAddr::is_multicast`
  pub parse : Text → Option IpAddr
  pub print : IpAddr → Text
  pub is_multicast : IpAddr → Bool
  -- `if_addrs::get_if_addrs`, `none` for its error
  pub get_if_addrs : Option (List Interface)
  -- the standard library parses what it prints
  pub parse-print : (a : IpAddr) → parse (print a) ≡ some a

pub record InterfaceInfo : Type 0 where
  pub name : Text
  pub ip : Text
  pub is_loopback : Bool
  pub is_up : Bool
  pub interface_type : Text

module _ (net : Net) where
  unfoldable pub interface_info : Interface → InterfaceInfo
  interface_info interface = record {
    name = interface.name;
    ip = net.print interface.addr;
    is_loopback = interface.is_loopback;
    is_up = true;
    interface_type = if interface.is_loopback then codes "loopback" else codes "ethernet";
  }

  unfoldable pub interface_infos : List Interface → List InterfaceInfo
  unfolding interface_info
  interface_infos [] = []
  interface_infos (interface ∷ interfaces) = interface_info interface ∷ interface_infos interfaces

  unfoldable pub get_system_interfaces : Option (List InterfaceInfo)
  unfolding interface_infos
  get_system_interfaces = elim net.get_if_addrs [
    | none ↦ none
    | some interfaces ↦ some (interface_infos interfaces)
  ]

  -- `if let Ok(interface_addr) = interface.ip.parse() { if interface_addr == target_addr`
  unfoldable pub has_addr : IpAddr → InterfaceInfo → Bool
  unfolding ip_eq
  has_addr target_addr interface = elim (net.parse interface.ip) [
    | none ↦ false
    | some interface_addr ↦ ip_eq interface_addr target_addr
  ]

  unfoldable pub any_addr : IpAddr → List InterfaceInfo → Bool
  unfolding has_addr
  any_addr target_addr [] = false
  any_addr target_addr (interface ∷ interfaces) =
      has_addr target_addr interface || any_addr target_addr interfaces

  unfoldable pub is_wildcard : Text → Bool
  unfolding text_eq
  is_wildcard bind_addr = text_eq bind_addr (codes "0.0.0.0") || text_eq bind_addr (codes "::")

  unfoldable pub is_valid_bind_address : Text → Bool
  unfolding is_wildcard any_addr get_system_interfaces
  is_valid_bind_address bind_addr =
      if is_wildcard bind_addr then true else elim (net.parse bind_addr) [
        | none ↦ false
        | some target_addr ↦ elim get_system_interfaces [
          | none ↦ false
          | some interfaces ↦ any_addr target_addr interfaces
        ]
      ]

  -- `interfaces.retain(…)`
  unfoldable pub retain : (InterfaceInfo → Bool) → List InterfaceInfo → List InterfaceInfo
  retain keep [] = []
  retain keep (interface ∷ interfaces) =
      let rest = retain keep interfaces in if keep interface then interface ∷ rest else rest

  -- `iface.ip.parse::<Ipv4Addr>().is_ok()`: the text is an address, and that is an IPv4 address.
  unfoldable pub is_v4 : InterfaceInfo → Bool
  is_v4 interface = elim (net.parse interface.ip) [ some (v4 a b c d) ↦ true | _ ↦ false ]

  -- `if let Some(true) = flag { interfaces.retain(…) }`
  unfoldable pub retain_if :
      Option Bool → (InterfaceInfo → Bool) → List InterfaceInfo → List InterfaceInfo
  unfolding retain
  retain_if (some true) keep interfaces = retain keep interfaces
  retain_if _ keep interfaces = interfaces

  unfoldable pub get_filtered_interfaces :
      Option Bool → Option Bool → Option Bool → Option (List InterfaceInfo)
  unfolding retain_if is_v4 get_system_interfaces
  get_filtered_interfaces only_up exclude_loopback ipv4_only = elim get_system_interfaces [
    | none ↦ none
    | some interfaces ↦ some (
        retain_if only_up (λ i. i.is_up)
          (retain_if ipv4_only is_v4
            (retain_if exclude_loopback (λ i. not i.is_loopback) interfaces)))
  ]
