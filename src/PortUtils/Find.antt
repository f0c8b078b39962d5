-- ===== src/PortUtils/Find.antt =====
-- `find_available_port` of src/port_utils.rs, with `check_port_conflict` of src/database.rs and
-- `port_range` of src/config.rs. The rows that the queries give are an argument, and so is
-- `is_port_available`, which binds sockets; a query that fails is not modelled.
use stream_gateway.Common.{
  ℕ, zero, suc, ◌-◌, ◌%◌, Bool, true, false, not, ◌&&◌, ◌||◌, Option, none, some, List, [], ◌∷◌,
  ◌==◌, if◌then◌else◌, contains,
}

-- A row of `outputs`, and the two top-level ports in the JSON of a row of `inputs`.
pub record OutputPort : Type 0 where
  pub id : ℕ
  pub listen_port : Option ℕ

pub record InputPorts : Type 0 where
  pub listen_port : Option ℕ
  pub bind_port : Option ℕ

-- `used_ports.insert(port as u16)`, if there is a port
unfoldable pub insert_port : Option ℕ → List ℕ → List ℕ
insert_port none ports = ports
insert_port (some port) ports = port % 65536 ∷ ports

unfoldable pub output_ports : List OutputPort → List ℕ → List ℕ
unfolding insert_port
output_ports [] ports = ports
output_ports (row ∷ rows) ports = output_ports rows (insert_port row.listen_port ports)

unfoldable pub input_ports : List InputPorts → List ℕ → List ℕ
unfolding insert_port
input_ports [] ports = ports
input_ports (row ∷ rows) ports =
    input_ports rows (insert_port row.bind_port (insert_port row.listen_port ports))

-- `id != ?`, where an id is excluded
unfoldable pub counted : Option ℕ → ℕ → Bool
counted none id = true
counted (some exclude_id) id = not (id == exclude_id)

unfoldable pub has_port : Option ℕ → ℕ → Bool
has_port none port = false
has_port (some listen_port) port = listen_port == port

-- `check_port_conflict`: some row that counts has the port.
unfoldable pub check_port_conflict : List OutputPort → ℕ → Option ℕ → Bool
unfolding counted has_port
check_port_conflict [] port exclude_output_id = false
check_port_conflict (row ∷ rows) port exclude_output_id =
    (has_port row.listen_port port && counted exclude_output_id row.id)
    || check_port_conflict rows port exclude_output_id

-- The loop over the excluded ids, from `has_conflict` on.
unfoldable pub any_conflict : List OutputPort → ℕ → List ℕ → Bool
unfolding check_port_conflict
any_conflict rows port [] = false
any_conflict rows port (exclude_id ∷ exclude_list) =
    check_port_conflict rows port (some exclude_id) || any_conflict rows port exclude_list

unfoldable pub has_conflict : List OutputPort → ℕ → List ℕ → Bool
unfolding check_port_conflict any_conflict
has_conflict rows port [] = check_port_conflict rows port none
has_conflict rows port (exclude_id ∷ exclude_list) =
    any_conflict rows port (exclude_id ∷ exclude_list)

-- The body of the loop: whether it returns the port.
unfoldable pub is_free : (ℕ → Bool) → List OutputPort → List ℕ → List ℕ → ℕ → Bool
unfolding has_conflict contains
is_free is_port_available rows exclude_list used_ports port =
    if contains used_ports port
    then false
    else if has_conflict rows port exclude_list
    then false
    else is_port_available port

-- `for port in port_range`, with `count` ports left
unfoldable pub search_ports : (ℕ → Bool) → ℕ → ℕ → Option ℕ
search_ports free port zero = none
search_ports free port (suc count) =
    let rest = search_ports free (suc port) count in if free port then some port else rest

-- `find_available_port`; `none` is the error that no port is available. The list of excluded ids is
-- empty where the source has none.
unfoldable pub find_available_port :
    (ℕ → Bool)
    → List OutputPort
    → List InputPorts
    → (auto_port_range_start auto_port_range_end : ℕ) → List ℕ
    → Option ℕ
unfolding is_free output_ports input_ports search_ports
find_available_port is_port_available outputs inputs auto_port_range_start auto_port_range_end
      exclude_list =
    search_ports
      (is_free is_port_available outputs exclude_list
        (input_ports inputs (output_ports outputs [])))
      auto_port_range_start (auto_port_range_end - auto_port_range_start)
