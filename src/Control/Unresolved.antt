-- ===== src/Control/Unresolved.antt =====
-- `start_output` of src/stream_control.rs when the address of a UDP output is not found.
use stream_gateway.Common.{ℕ, ◌≡◌, refl, false, Option, none, some, List}
use stream_gateway.Common.Texts.{Text}
use stream_gateway.Common.Maps.{lookup, remove, lookup-insert_self, lookup-remove_self}
use stream_gateway.Models.Requests.{UdpOutput, CreateOutputRequest}
use stream_gateway.Streams.State.{InputInfo, World}
use stream_gateway.Streams.Spawn.{create_udp_output, MulticastOutputConfig}
use stream_gateway.Control.Outcome.{failed, output_not_created, Platform}
use stream_gateway.Control.Restart.{restart_address}
use stream_gateway.Control.Outputs.{
  recreate_output, start_output_internal, start_output_of, start_output, is_stopped,
}

create_udp_output_fails :
    (resolve : Text → Option (List Text)) (w : World) (destination : Text) (info : InputInfo)
    (id : ℕ) (name bind_host : Option Text) (multicast : Option MulticastOutputConfig)
    → resolve destination ≡ none
    → create_udp_output resolve w destination info id name bind_host multicast ≡ (w, none)
unfolding create_udp_output
create_udp_output_fails resolve w destination info id name bind_host multicast fails =
    rw (fails, create_udp_output) refl

recreate_output_fails :
    (p : Platform) (w : World) (info : InputInfo) (id : ℕ) (c : UdpOutput)
    → p.resolve (restart_address c) ≡ none
    → recreate_output p w info id (CreateOutputRequest.udp c) ≡ (w, none)
unfolding recreate_output
recreate_output_fails p w info id c fails =
    create_udp_output_fails p.resolve w (restart_address c) info id _ _ _ fails

-- If the address of a stopped UDP output, as its stored configuration gives it, is not resolved, to
-- start the output while its input is not stopped fails, and the output is then neither running nor
-- stopped: its stored configuration is lost.
pub start_output_forgets :
    (p : Platform) (w : World) (input_id id : ℕ) (info : InputInfo) (c : UdpOutput)
    → p.resolve (restart_address c) ≡ none
    → lookup input_id w.streams ≡ some info
    → is_stopped info.status ≡ false
    → lookup id info.output_tasks ≡ none
    → lookup id info.stopped_outputs ≡ some (CreateOutputRequest.udp c)
    → ((start_output p w input_id id).1 ≡ failed output_not_created)
      × (entry : InputInfo) × (lookup input_id (start_output p w input_id id).0.streams
          ≡ some entry)
      × (lookup id entry.output_tasks ≡ none)
      × (lookup id entry.stopped_outputs ≡ none)
unfolding start_output start_output_of start_output_internal
start_output_forgets p w input_id id info c fails l n idle e =
    let left = record info { stopped_outputs = remove id info.stopped_outputs } in
    rw (l, start_output)
      (rw (n, e, start_output_of)
        (rw (recreate_output_fails p w left id c fails, start_output_internal)
          (
            refl,
            left,
            lookup-insert_self input_id left
                (recreate_output p w left id (CreateOutputRequest.udp c)).0.streams,
            idle,
            lookup-remove_self id info.stopped_outputs,
          )))
