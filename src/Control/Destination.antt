-- ===== src/Control/Destination.antt =====
-- Where a UDP output of src/stream_control.rs sends after it was stopped and started: its stored
-- configuration is the one that `create_udp_output` of src/udp_stream.rs wrote.
use stream_gateway.Common.{ℕ, ◌≡◌, ◌≤◌, refl, false, Option, none, some, List, ◌∷◌}
use stream_gateway.Common.Texts.{
  Text, Avoids, split-Avoids, split-append, print_nat, print_nat-Avoids, parse_u16-print_nat,
}
use stream_gateway.Common.Maps.{lookup, insert, remove, lookup-insert_self}
use stream_gateway.Models.Addresses.{host_of, port_of, parse_port, second}
use stream_gateway.Models.Outputs.{get_remote_host, get_remote_port}
use stream_gateway.Streams.State.{OutputInfo, InputInfo, World}
use stream_gateway.Streams.Spawn.{
  format_addr, create_udp_output, udp_output_info, MulticastOutputConfig,
}
use stream_gateway.Control.Outcome.{done, Platform}
use stream_gateway.Control.Outputs.{
  store, recreate_output, start_output_internal, start_output_of, start_output, stop_output,
  is_stopped, abort_handle,
}

host_of-format_addr :
    (host : Text) (port : ℕ)
    → Avoids b':' host
    → host_of none (some (format_addr host port)) ≡ some host
unfolding host_of format_addr
host_of-format_addr host port h = rw (split-append b':' host (print_nat port) h) refl

port_of-format_addr :
    (host : Text) (port : ℕ)
    → Avoids b':' host
    → port ≤ 65535
    → port_of none (some (format_addr host port)) ≡ some port
unfolding port_of format_addr second parse_port
port_of-format_addr host port h b =
    rw (split-append b':' host (print_nat port) h)
      (rw (split-Avoids b':' (print_nat port) (print_nat-Avoids port)) (parse_u16-print_nat port b))

created :
    (resolve : Text → Option (List Text)) (w : World) (destination first : Text)
    (others : List Text) (input_info : InputInfo) (id : ℕ) (name bind_host : Option Text)
    (multicast : Option MulticastOutputConfig)
    → resolve destination ≡ some (first ∷ others)
    → (o : OutputInfo) × ((create_udp_output resolve w destination input_info id name bind_host
          multicast).1
        ≡ some o)
      × (o.destination ≡ destination)
unfolding create_udp_output udp_output_info
created resolve w destination first others input_info id name bind_host multicast found = (
  udp_output_info w destination input_info id name bind_host multicast,
  rw (found, create_udp_output) refl,
  refl,
)

-- The address that a restart computes from the stored configuration.
restarted :
    (p : Platform) (v w : World) (host : Text) (port : ℕ) (input_info input : InputInfo) (id : ℕ)
    (name bind_host : Option Text) (multicast : Option MulticastOutputConfig) (first : Text)
    (others : List Text)
    → Avoids b':' host
    → port ≤ 65535
    → p.resolve (format_addr host port) ≡ some (first ∷ others)
    → (o : OutputInfo) × ((recreate_output p v input_info id
          (udp_output_info w (format_addr host port) input id name bind_host multicast).config).1
        ≡ some o)
      × (o.destination ≡ format_addr host port)
unfolding recreate_output udp_output_info get_remote_host get_remote_port format_addr
restarted p v w host port input_info input id name bind_host multicast first others h b found =
    rw (host_of-format_addr host port h) (
      rw (port_of-format_addr host port h b) (
        created p.resolve v (format_addr host port) first others input_info id _ bind_host _ found))

pub stop_output_lem :
    (w : World) (input_id id : ℕ) (info : InputInfo) (o : OutputInfo)
    → lookup input_id w.streams ≡ some info
    → lookup id info.output_tasks ≡ some o
    → stop_output w input_id id ≡ (
      store input_id
          (record info {
            output_tasks = remove id info.output_tasks;
            stopped_outputs = insert id o.config info.stopped_outputs;
          })
          (abort_handle o.abort_handle w),
      done tt,
    )
unfolding stop_output
stop_output_lem w input_id id info o l e = rw (l, stop_output) (rw e refl)

-- A UDP output to a host without a colon and a port of 16 bits, as `create_udp_output` made it, is
-- stopped and started again while its input is not stopped and its address is resolved: the start
-- succeeds, and the output has the destination that it had.
pub stop_output-start_output :
    (p : Platform) (w made : World) (input_id id port : ℕ) (host first : Text) (others : List Text)
    (info input : InputInfo) (name bind_host : Option Text)
    (multicast : Option MulticastOutputConfig)
    → lookup input_id w.streams ≡ some info
    → is_stopped info.status ≡ false
    → lookup id info.output_tasks
      ≡ some (udp_output_info made (format_addr host port) input id name bind_host multicast)
    → Avoids b':' host
    → port ≤ 65535
    → p.resolve (format_addr host port) ≡ some (first ∷ others)
    → ((start_output p (stop_output w input_id id).0 input_id id).1 ≡ done tt)
      × (entry : InputInfo) × (lookup input_id
            (start_output p (stop_output w input_id id).0 input_id id).0.streams
          ≡ some entry)
      × (o : OutputInfo) × (lookup id entry.output_tasks ≡ some o)
      × (o.destination ≡ format_addr host port)
unfolding start_output start_output_of start_output_internal
stop_output-start_output p w made input_id id port host first others info input name bind_host
      multicast l n e h b found =
    let old = udp_output_info made (format_addr host port) input id name bind_host multicast in
    let stopped = record info {
      output_tasks = remove id info.output_tasks;
      stopped_outputs = insert id old.config info.stopped_outputs;
    } in
    let v = store input_id stopped (abort_handle old.abort_handle w) in
    let left = record stopped { stopped_outputs = remove id stopped.stopped_outputs } in
    let (o, made_again, same) =
      restarted p v made host port left input id name bind_host multicast first others h b found in
    rw (stop_output_lem w input_id id info old l e) (
      rw
        (
          lookup-insert_self input_id stopped (abort_handle old.abort_handle w).streams,
          start_output,
        )
        (rw (n, lookup-insert_self id old.config info.stopped_outputs, start_output_of)
          (rw (made_again, start_output_internal)
            (
              refl,
              _,
              lookup-insert_self input_id _ _,
              o,
              lookup-insert_self id o (remove id info.output_tasks),
              same,
            ))))
