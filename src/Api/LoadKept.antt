-- ===== src/Api/LoadKept.antt =====
-- `load_from_db` of src/api.rs: its outputs leave the entries of the inputs in place.
use stream_gateway.Common.{
  ℕ, ◌≡◌, ◌∙◌, refl, true, Option, none, some, [], ◌∷◌, ◌==◌, inl, inr, Bool-cases, Option-cases,
  arith, subst,
}
use stream_gateway.Common.Texts.{codes, text_eq}
use stream_gateway.Common.Maps.{Map, lookup, lookup-insert}
use stream_gateway.Models.Requests.{SrtOutputConfig}
use stream_gateway.Streams.State.{OutputInfo, InputInfo, World}
use stream_gateway.Streams.Spawn.{create_srt_output, create_udp_output}
use stream_gateway.Control.Outputs.{store}
use stream_gateway.Control.OutputLaws.{create_udp_output_streams}
use stream_gateway.Database.Tables.{OutputRow}
use stream_gateway.Api.Gateway.{Site}
use stream_gateway.Api.LoadInputs.{Readers}
use stream_gateway.Api.LoadOutputs.{
  Restored, add_task, row_destination, stopped_config, stopped_output, restore_udp, restore_srt,
  caller_config, listener_config, active_output, restore_output, restore_outputs, load_outputs,
}

-- The outputs of an input are not part of what a row of the input says.
abbrev pub Same : InputInfo → InputInfo → Type 0
Same before info =
    (info.id ≡ before.id) × (info.status ≡ before.status) × (info.task_handle ≡ before.task_handle)

-- Nothing but the outputs of the entry changed.
abbrev pub Still : World → InputInfo → Restored → Type 0
Still w input restored = (restored.0.streams ≡ w.streams) × Same input restored.1.0

add_task-Still :
    (w : World) (input : InputInfo) (id : ℕ) (made : World × Option OutputInfo)
    → made.0.streams ≡ w.streams
    → Still w input (add_task input id made)
unfolding add_task
add_task-Still w input id (v, none) same = (same, (refl, refl, refl))
add_task-Still w input id (v, some info) same = (same, (refl, refl, refl))

module _ (readers : Readers) (site : Site) (w : World) (input_id : ℕ) (input : InputInfo) (id : ℕ)
    (row : OutputRow) where
  restore_udp-Still : Still w input (restore_udp readers site w input id row)
  unfolding restore_udp
  restore_udp-Still = elim (Bool-cases (readers.is_socket_addr (row_destination row))) [
    | inl e ↦
        rw (e, restore_udp)
          (add_task-Still w input id
            (create_udp_output site.platform.resolve w (row_destination row) input id row.name none
              none)
            (create_udp_output_streams site.platform.resolve w (row_destination row) input id
              row.name none none))
    | inr e ↦ rw (e, restore_udp) (refl, (refl, refl, refl))
  ]

  restore_srt-Still :
      (config : Option SrtOutputConfig) → Still w input (restore_srt w input_id input id row config)
  unfolding restore_srt create_srt_output add_task
  restore_srt-Still none = (refl, (refl, refl, refl))
  restore_srt-Still (some config) = (refl, (refl, refl, refl))

  active_output-Still : Still w input (active_output readers site w input_id input id row)
  unfolding active_output
  active_output-Still = elim (Bool-cases (text_eq row.kind (codes "udp"))) [
    | inl e ↦ rw (e, active_output) restore_udp-Still
    | inr e ↦ elim (Bool-cases (text_eq row.kind (codes "srt_caller"))) [
      | inl f ↦ rw (e, f, active_output) (restore_srt-Still (caller_config readers row))
      | inr f ↦ elim (Bool-cases (text_eq row.kind (codes "srt_listener"))) [
        | inl h ↦ rw (e, f, h, active_output) (restore_srt-Still (listener_config readers row))
        | inr h ↦ rw (e, f, h, active_output) (refl, (refl, refl, refl))
      ]
    ]
  ]

  stopped_output-Same : Same input (stopped_output readers input_id input id row)
  unfolding stopped_output
  stopped_output-Same = elim (Option-cases (stopped_config readers input_id row)) [
    | inl e ↦ rw (e, stopped_output) (refl, refl, refl)
    | inr (config, e) ↦ rw (e, stopped_output) (refl, refl, refl)
  ]

  restore_output-Still : Still w input (restore_output readers site w input_id input id row)
  unfolding restore_output
  restore_output-Still = elim (Bool-cases (text_eq row.status (codes "stopped"))) [
    | inl e ↦ rw (e, restore_output) (refl, stopped_output-Same)
    | inr e ↦ rw (e, restore_output) active_output-Still
  ]

Still-trans :
    (w : World) (input : InputInfo) (r s : Restored)
    → Still w input r
    → Still r.0 r.1.0 s
    → Still w input s
Still-trans w input r s (a, (i, t, h)) (b, (j, u, k)) = (b ∙ a, (j ∙ i, u ∙ t, k ∙ h))

restore_outputs-Still :
    (readers : Readers) (site : Site) (w : World) (input_id : ℕ) (input : InputInfo)
    (rows : Map OutputRow)
    → Still w input (restore_outputs readers site w input_id input rows)
unfolding restore_outputs
restore_outputs-Still readers site w input_id input [] = (refl, (refl, refl, refl))
restore_outputs-Still readers site w input_id input ((id, row) ∷ rows) = elim (Bool-cases r.1.1) [
  | inl e ↦
      rw (e, restore_outputs)
        (Still-trans w input r (restore_outputs readers site r.0 input_id r.1.0 rows) first
          (restore_outputs-Still readers site r.0 input_id r.1.0 rows))
  | inr e ↦ rw (e, restore_outputs) first
]
  where
    r : Restored
    r = restore_output readers site w input_id input id row

    first : Still w input r
    first = restore_output-Still readers site w input_id input id row

-- An entry is still there, up to its outputs.
abbrev pub Holds : ℕ → InputInfo → World → Type 0
Holds id before w = (info : InputInfo) × (lookup id w.streams ≡ some info) × Same before info

Same-trans : (a b c : InputInfo) → Same a b → Same b c → Same a c
Same-trans a b c (i, t, h) (j, u, k) = (j ∙ i, u ∙ t, k ∙ h)

store-Holds :
    (w : World) (key : ℕ) (input : InputInfo) (r : Restored) (id : ℕ) (info : InputInfo)
    → lookup key w.streams ≡ some input
    → Still w input r
    → lookup id w.streams ≡ some info
    → Holds id info (store key r.1.0 r.0)
store-Holds w key input r id info found (same, kept) l = elim (Bool-cases (key == id)) [
  | inl hit ↦ (
    r.1.0,
    ground (arith, hit, lookup-insert key id r.1.0 r.0.streams),
    subst (λ (i : InputInfo). Same i r.1.0) (entry hit) kept,
  )
  | inr miss ↦ (
    info,
    ground (arith, miss, same, l, lookup-insert key id r.1.0 r.0.streams),
    (refl, refl, refl),
  )
]
  where
    entry : (key == id) ≡ true → input ≡ info
    entry hit = ground (arith, hit, found, l)

pub load_outputs-Holds :
    (readers : Readers) (site : Site) (w : World) (groups : Map (Map OutputRow)) (id : ℕ)
    (info : InputInfo)
    → lookup id w.streams ≡ some info
    → Holds id info (load_outputs readers site w groups).0
unfolding load_outputs
load_outputs-Holds readers site w [] id info l = (info, l, (refl, refl, refl))
load_outputs-Holds readers site w ((key, outputs) ∷ groups) id info l =
    elim (Option-cases (lookup key w.streams)) [
      | inl e ↦ rw (e, load_outputs) (load_outputs-Holds readers site w groups id info l)
      | inr (input, e) ↦
          group (λ v other m. load_outputs-Holds readers site v groups id other m) input e
    ]
  where
    group :
        ((v : World) (other : InputInfo)
          → lookup id v.streams ≡ some other
          → Holds id other (load_outputs readers site v groups).0)
        → (input : InputInfo) → lookup key w.streams ≡ some input
        → Holds id info (load_outputs readers site w ((key, outputs) ∷ groups)).0
    group rest input e = elim (Bool-cases r.1.1) [
      | inl done ↦
          let (other, m, same) = stored in
          let (last, n, later) = rest (store key r.1.0 r.0) other m in
          rw (e, done, load_outputs) (last, n, Same-trans info other last same later)
      | inr failed ↦ rw (e, failed, load_outputs) stored
    ]
      where
        r : Restored
        r = restore_outputs readers site w key input outputs

        stored : Holds id info (store key r.1.0 r.0)
        stored =
            store-Holds w key input r id info e
              (restore_outputs-Still readers site w key input outputs) l
