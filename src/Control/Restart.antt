-- ===== src/Control/Restart.antt =====
-- `start_input` of src/stream_control.rs after a stop: which outputs run again.
use stream_gateway.Common.{
  ℕ, ◌≡◌, refl, subst, ◌∙◌, ap, ◌==◌, Bool, true, false, Option, some, List, [], ◌∷◌, inl, inr,
  Bool-cases, Option-cases, arith, unwrap_or,
}
use stream_gateway.Common.Texts.{Text, codes}
use stream_gateway.Common.Maps.{Map, lookup, insert, lookup-insert, lookup-insert_self}
use stream_gateway.Models.Requests.{
  SrtInputConfig, SrtOutputConfig, CreateInputRequest, UdpOutput, CreateOutputRequest,
}
use stream_gateway.Models.Outputs.{get_remote_host, get_remote_port}
use stream_gateway.Models.Status.{StreamStatus, is_active}
use stream_gateway.Streams.State.{OutputInfo, InputInfo, World}
use stream_gateway.Streams.Spawn.{
  create_udp_output, create_srt_output, srt_status, spawn_udp_input_with_stats, spawn_with_stats,
  udp_output_info, MulticastOutputConfig, format_addr,
}
use stream_gateway.Control.Outcome.{done, Platform}
use stream_gateway.Control.Outputs.{recreate_output, start_output_internal}
use stream_gateway.Control.Inputs.{
  start_outputs, restart_guarded, finish_guarded, resume_input, start_input, initial_status,
  started,
}

-- The address that a restart of a UDP output looks up.
abbrev pub restart_address : UdpOutput → Text
restart_address c =
    format_addr (unwrap_or (get_remote_host (CreateOutputRequest.udp c)) (codes "127.0.0.1"))
      (unwrap_or (get_remote_port (CreateOutputRequest.udp c)) 8000)

-- The address of the output is found; an SRT output is created without looking it up.
unfoldable pub Found : Platform → CreateOutputRequest → Type 0
Found p (CreateOutputRequest.udp c) =
    (first : Text) × (others : List Text) × (p.resolve (restart_address c) ≡ some (first ∷ others))
Found p (CreateOutputRequest.srt input_id name config) = Unit

-- The address of each of the outputs is found.
unfoldable pub Resolves : Platform → Map CreateOutputRequest → Type 0
unfolding Found
Resolves p [] = Unit
Resolves p ((id, config) ∷ outputs) = Found p config × Resolves p outputs

-- The output is among the tasks, and is active.
unfoldable pub Runs : Map OutputInfo → ℕ → Type 0
Runs tasks output_id =
    (o : OutputInfo) × (lookup output_id tasks ≡ some o) × (is_active o.status ≡ true)

srt_status_active : (config : SrtOutputConfig) → is_active (srt_status config) ≡ true
unfolding srt_status is_active
srt_status_active (SrtOutputConfig.caller c) = refl
srt_status_active (SrtOutputConfig.listener c) = refl

create_udp_output_active :
    (p : Platform) (w : World) (destination first : Text) (others : List Text) (info : InputInfo)
    (id : ℕ) (name bind_host : Option Text) (config : Option MulticastOutputConfig)
    → p.resolve destination ≡ some (first ∷ others)
    → (o : OutputInfo) × ((create_udp_output p.resolve w destination info id name bind_host
          config).1
        ≡ some o)
      × (is_active o.status ≡ true)
unfolding create_udp_output is_active udp_output_info
create_udp_output_active p w destination first others info id name bind_host config e = (
  udp_output_info w destination info id name bind_host config,
  rw (e, create_udp_output) refl,
  refl,
)

pub recreate_output_active :
    (p : Platform) (w : World) (info : InputInfo) (id : ℕ) (config : CreateOutputRequest)
    → Found p config
    → (o : OutputInfo) × ((recreate_output p w info id config).1 ≡ some o)
      × (is_active o.status ≡ true)
unfolding recreate_output create_srt_output Found
recreate_output_active p w info id (CreateOutputRequest.udp c) (first, others, e) =
    create_udp_output_active p w (restart_address c) first others info id c.name c.bind_host _ e
recreate_output_active p w info id (CreateOutputRequest.srt input_id name config) found =
    (_, refl, srt_status_active config)

insert-Runs :
    (tasks : Map OutputInfo) (k id : ℕ) (o : OutputInfo)
    → is_active o.status ≡ true
    → Runs tasks id
    → Runs (insert k o tasks) id
unfolding Runs
insert-Runs tasks k id o a (t, e, b) = elim (Bool-cases (k == id)) [
  | inl same ↦ (o, lookup-insert k id o tasks ∙ ground (arith, same), a)
  | inr other ↦ (t, lookup-insert k id o tasks ∙ ground (arith, other, e), b)
]

-- Only the outputs change.
start_output_internal_frame :
    (p : Platform) (w : World) (info : InputInfo) (id : ℕ) (config : CreateOutputRequest)
    → (start_output_internal p w info id config).1
      ≡ record info { output_tasks = (start_output_internal p w info id config).1.output_tasks }
unfolding start_output_internal
start_output_internal_frame p w info id config =
    elim (Option-cases (recreate_output p w info id config).1) [
      | inl e ↦ rw (e, start_output_internal) refl
      | inr (o, e) ↦ rw (e, start_output_internal) refl
    ]

pub start_outputs_frame :
    (p : Platform) (outputs : Map CreateOutputRequest) (w : World) (info : InputInfo)
    → (start_outputs p w info outputs).1
      ≡ record info { output_tasks = (start_outputs p w info outputs).1.output_tasks }
unfolding start_outputs
start_outputs_frame p [] w info = refl
start_outputs_frame p ((id, config) ∷ outputs) w info =
    let (v, next, ok) = start_output_internal p w info id config in
    start_outputs_frame p outputs v next
    ∙ ap
        (λ (i : InputInfo). record i {
          output_tasks = (start_outputs p v next outputs).1.output_tasks;
        })
        (start_output_internal_frame p w info id config)

start_output_internal-Runs :
    (p : Platform) (w : World) (info : InputInfo) (id : ℕ) (config : CreateOutputRequest)
    → Found p config
    → Runs (start_output_internal p w info id config).1.output_tasks id
      × ((j : ℕ)
          → Runs info.output_tasks j
          → Runs (start_output_internal p w info id config).1.output_tasks j)
unfolding start_output_internal Runs
start_output_internal-Runs p w info id config r =
    let (o, e, a) = recreate_output_active p w info id config r in
    rw (e, start_output_internal)
      (
        (o, lookup-insert_self id o info.output_tasks, a),
        λ j runs. insert-Runs info.output_tasks id j o a runs,
      )

-- Every output of the list runs at the end, and so does every output that ran before.
pub start_outputs-Runs :
    (p : Platform) (outputs : Map CreateOutputRequest) (w : World) (info : InputInfo)
    → Resolves p outputs
    → ((j : ℕ) → Runs info.output_tasks j → Runs (start_outputs p w info outputs).1.output_tasks j)
      × ((id : ℕ) (config : CreateOutputRequest)
          → lookup id outputs ≡ some config
          → Runs (start_outputs p w info outputs).1.output_tasks id)
unfolding start_outputs lookup Resolves
start_outputs-Runs p [] w info r = (λ j runs. runs, λ id config e. absurd (ground arith))
start_outputs-Runs p ((k, c) ∷ outputs) w info (r, rest) =
    let (v, next, ok) = start_output_internal p w info k c in
    let (first, kept) = start_output_internal-Runs p w info k c r in
    let (later, listed) = start_outputs-Runs p outputs v next rest in
    (
      λ j runs. later j (kept j runs),
      λ id config e. elim (Bool-cases (k == id)) [
        | inl same ↦
            later id (subst (λ (j : ℕ). Runs next.output_tasks j) (ground (arith, same)) first)
        | inr other ↦ listed id config (ground (arith, other, e))
      ],
    )

-- No other task acts in between.
abbrev pub alone : World → World
alone w = w

-- The configuration is that of an input which keeps the guard until its analyses are restarted.
abbrev pub is_spts : CreateInputRequest → Bool
is_spts (CreateInputRequest.spts c) = true
is_spts _ = false

initial_status_active : (config : SrtInputConfig) → is_active (initial_status config) ≡ true
unfolding initial_status is_active
initial_status_active (SrtInputConfig.listener c) = refl
initial_status_active (SrtInputConfig.caller c) = refl

-- The entry that `start_input` writes before it starts the outputs.
pub resume_input_lem :
    (meanwhile : World → World) (p : Platform) (w : World) (id : ℕ) (name : Option Text)
    (info : InputInfo) (config : CreateInputRequest)
    → is_spts config ≡ false
    → (v : World) × (handle : Option ℕ) × (tx : ℕ) × (status : StreamStatus) × (is_active status
        ≡ true)
      × (v.streams ≡ w.streams)
      × (resume_input meanwhile p w id name info config
          ≡ finish_guarded meanwhile p v id (started info v handle tx status))
unfolding resume_input is_active spawn_udp_input_with_stats spawn_with_stats
resume_input_lem meanwhile p w id name info (CreateInputRequest.udp c) h =
    (_, _, _, StreamStatus.listening, refl, refl, refl)
resume_input_lem meanwhile p w id name info (CreateInputRequest.srt n c) h =
    (_, _, _, initial_status c, initial_status_active c, refl, refl)
resume_input_lem meanwhile p w id name info (CreateInputRequest.spts c) h = absurd (ground arith)

pub start_input_lem :
    (p : Platform) (w : World) (info : InputInfo)
    → lookup info.id w.streams ≡ some info
    → is_active info.status ≡ false
    → is_spts info.config ≡ false
    → (v : World) × (handle : Option ℕ) × (tx : ℕ) × (status : StreamStatus) × (is_active status
        ≡ true)
      × (start_input alone p w info.id
          ≡ finish_guarded alone p v info.id (started info v handle tx status))
unfolding start_input
start_input_lem p w info l a s =
    let (v, handle, tx, status, active, same, e) =
      resume_input_lem alone p w info.id info.name info info.config s in
    (v, handle, tx, status, active, rw (l, start_input) (rw a (rw l e)))

pub finish_guarded_done :
    (p : Platform) (v : World) (id : ℕ) (info : InputInfo)
    → Resolves p info.stopped_outputs
    → info.paused_analysis ≡ []
    → (entry : InputInfo) × ((finish_guarded alone p v id info).1 ≡ done tt)
      × (lookup id (finish_guarded alone p v id info).0.streams ≡ some entry)
      × (entry.status ≡ info.status)
      × (entry.packet_tx ≡ info.packet_tx)
      × (entry.stopped_outputs ≡ [])
      × ((output_id : ℕ) (config : CreateOutputRequest)
          → lookup output_id info.stopped_outputs ≡ some config
          → Runs entry.output_tasks output_id)
unfolding finish_guarded restart_guarded
finish_guarded_done p v id info r none_paused =
    let emptied = record info { stopped_outputs = [] } in
    let ready = (start_outputs p v emptied info.stopped_outputs).1 in
    let frame = start_outputs_frame p info.stopped_outputs v emptied in
    let quiet = ap (λ (i : InputInfo). i.paused_analysis) frame ∙ none_paused in
    (
      record ready { paused_analysis = [] },
      rw (quiet, restart_guarded) refl,
      rw (quiet, restart_guarded)
          (lookup-insert_self id (record ready { paused_analysis = [] })
            (start_outputs p v emptied info.stopped_outputs).0.streams),
      ap (λ (i : InputInfo). i.status) frame,
      ap (λ (i : InputInfo). i.packet_tx) frame,
      ap (λ (i : InputInfo). i.stopped_outputs) frame,
      (start_outputs-Runs p info.stopped_outputs v emptied r).1,
    )
