-- ===== src/Control/OutputLaws.antt =====
-- Running and stopped outputs in the entries that the operations of src/stream_control.rs write.
use stream_gateway.Common.{
  ℕ, ◌≡◌, ◌⊎◌, inl, inr, refl, ◌∙◌, Option, none, some, List, [], ◌∷◌, Option-cases, arith,
}
use stream_gateway.Common.Texts.{Text}
use stream_gateway.Common.Maps.{Map, lookup, insert, remove, lookup-insert, lookup-remove}
use stream_gateway.Models.Requests.{CreateOutputRequest}
use stream_gateway.Streams.State.{OutputInfo, InputInfo, World}
use stream_gateway.Streams.Spawn.{create_udp_output, create_srt_output, MulticastOutputConfig}
use stream_gateway.Control.Outcome.{Platform}
use stream_gateway.Control.Outputs.{recreate_output, start_output_internal}
use stream_gateway.Control.Inputs.{start_outputs}

-- No output is both among the tasks and among the stopped outputs.
unfoldable pub Apart : Map OutputInfo → Map CreateOutputRequest → Type 0
Apart tasks stopped = (id : ℕ) → (lookup id tasks ≡ none) ⊎ (lookup id stopped ≡ none)

pub Apart-stop :
    (id : ℕ) (config : CreateOutputRequest) (tasks : Map OutputInfo)
    (stopped : Map CreateOutputRequest)
    → Apart tasks stopped
    → Apart (remove id tasks) (insert id config stopped)
unfolding Apart
Apart-stop id config tasks stopped apart j =
    ground (arith, apart j, lookup-remove id j tasks, lookup-insert id j config stopped)

pub Apart-start :
    (id : ℕ) (o : OutputInfo) (tasks : Map OutputInfo) (stopped : Map CreateOutputRequest)
    → Apart tasks stopped
    → Apart (insert id o tasks) (remove id stopped)
unfolding Apart
Apart-start id o tasks stopped apart j =
    ground (arith, apart j, lookup-insert id j o tasks, lookup-remove id j stopped)

pub Apart-remove :
    (id : ℕ) (tasks : Map OutputInfo) (stopped : Map CreateOutputRequest)
    → Apart tasks stopped
    → Apart tasks (remove id stopped)
unfolding Apart
Apart-remove id tasks stopped apart j = ground (arith, apart j, lookup-remove id j stopped)

pub Apart-nil : (tasks : Map OutputInfo) → Apart tasks []
unfolding Apart lookup
Apart-nil tasks j = inr refl

pub Apart-none : (stopped : Map CreateOutputRequest) → Apart [] stopped
unfolding Apart lookup
Apart-none stopped j = inl refl

pub create_udp_output_streams :
    (resolve : Text → Option (List Text)) (w : World) (destination : Text) (info : InputInfo)
    (id : ℕ) (name bind_host : Option Text) (multicast : Option MulticastOutputConfig)
    → (create_udp_output resolve w destination info id name bind_host multicast).0.streams
      ≡ w.streams
unfolding create_udp_output
create_udp_output_streams resolve w destination info id name bind_host multicast =
    go (resolve destination) refl
  where
    go :
        (found : Option (List Text))
        → resolve destination ≡ found
        → (create_udp_output resolve w destination info id name bind_host multicast).0.streams
          ≡ w.streams
    go none e = rw (e, create_udp_output) refl
    go (some []) e = rw (e, create_udp_output) refl
    go (some (first ∷ others)) e = rw (e, create_udp_output) refl

recreate_output_streams :
    (p : Platform) (w : World) (info : InputInfo) (id : ℕ) (config : CreateOutputRequest)
    → (recreate_output p w info id config).0.streams ≡ w.streams
unfolding recreate_output create_srt_output
recreate_output_streams p w info id (CreateOutputRequest.udp c) =
    create_udp_output_streams p.resolve w _ info id _ _ _
recreate_output_streams p w info id (CreateOutputRequest.srt input_id name config) = refl

pub start_output_internal_streams :
    (p : Platform) (w : World) (info : InputInfo) (id : ℕ) (config : CreateOutputRequest)
    → (start_output_internal p w info id config).0.streams ≡ w.streams
unfolding start_output_internal
start_output_internal_streams p w info id config =
    elim (Option-cases (recreate_output p w info id config).1) [
      | inl e ↦ rw (e, start_output_internal) (recreate_output_streams p w info id config)
      | inr (o, e) ↦ rw (e, start_output_internal) (recreate_output_streams p w info id config)
    ]

-- Starting an output that was taken out of the stopped ones keeps them apart.
pub start_output_internal-Apart :
    (p : Platform) (w : World) (info : InputInfo) (id : ℕ) (config : CreateOutputRequest)
    → Apart info.output_tasks info.stopped_outputs
    → Apart
        (start_output_internal p w
          (record info { stopped_outputs = remove id info.stopped_outputs })
          id
          config).1.output_tasks
        (start_output_internal p w
          (record info { stopped_outputs = remove id info.stopped_outputs })
          id
          config).1.stopped_outputs
unfolding start_output_internal
start_output_internal-Apart p w info id config apart =
    let left = record info { stopped_outputs = remove id info.stopped_outputs } in
    elim (Option-cases (recreate_output p w left id config).1) [
      | inl e ↦
          rw (e, start_output_internal)
            (Apart-remove id info.output_tasks info.stopped_outputs apart)
      | inr (o, e) ↦
          rw (e, start_output_internal)
            (Apart-start id o info.output_tasks info.stopped_outputs apart)
    ]

pub start_outputs_streams :
    (p : Platform) (outputs : Map CreateOutputRequest) (w : World) (info : InputInfo)
    → (start_outputs p w info outputs).0.streams ≡ w.streams
unfolding start_outputs
start_outputs_streams p [] w info = refl
start_outputs_streams p ((id, config) ∷ outputs) w info =
    start_outputs_streams p outputs (start_output_internal p w info id config).0
      (start_output_internal p w info id config).1
    ∙ start_output_internal_streams p w info id config
