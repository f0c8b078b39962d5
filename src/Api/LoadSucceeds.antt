-- ===== src/Api/LoadSucceeds.antt =====
-- When `load_from_db` of src/api.rs ends without an error.
use stream_gateway.Common.{
  ℕ, ◌≡◌, refl, Bool, true, ◌&&◌, Option, none, some, [], ◌∷◌, ◌++◌, ◌==◌, inl, inr, Bool-cases,
  Option-cases, arith, is_some, unwrap_or,
}
use stream_gateway.Common.Texts.{codes, text_eq}
use stream_gateway.Common.Maps.{Map, lookup, insert}
use stream_gateway.Models.Requests.{SrtOutputConfig}
use stream_gateway.Streams.State.{InputInfo, OutputInfo, World}
use stream_gateway.Streams.Spawn.{create_srt_output, create_udp_output}
use stream_gateway.Control.Outputs.{store}
use stream_gateway.Database.Tables.{
  InputRow, OutputRow, Database, Statement, get_all_inputs, get_all_outputs,
}
use stream_gateway.Api.Gateway.{Gateway, Site}
use stream_gateway.Api.LoadInputs.{Readers, base_row, spts_row, is_spts_row, rows_with}
use stream_gateway.Api.LoadOutputs.{
  Restored, add_task, row_destination, restore_udp, restore_srt, caller_config, listener_config,
  active_output, restore_output, restore_outputs, group_rows, load_outputs, load_spts, is_base,
  load_inputs, load_from_db,
}
use stream_gateway.Api.LoadReads.{
  input_reads, output_reads, every, base_row-reads, spts_row-reads, load_rows-reads,
  every-rows_with,
}

-- Every row of every input.
every_group : Readers → Map (Map OutputRow) → Bool
every_group readers = every (every (output_reads readers))

module _ (readers : Readers) (site : Site) (w : World) (input_id : ℕ) (input : InputInfo) (id : ℕ)
    (row : OutputRow) where
  add_task-done : (made : World × Option OutputInfo) → (add_task input id made).1.1 ≡ true
  unfolding add_task
  add_task-done (v, none) = refl
  add_task-done (v, some info) = refl

  restore_udp-done : (restore_udp readers site w input id row).1.1 ≡ true
  unfolding restore_udp
  restore_udp-done = elim (Bool-cases (readers.is_socket_addr (row_destination row))) [
    | inl e ↦
        rw (e, restore_udp)
          (add_task-done (
            create_udp_output site.platform.resolve w (row_destination row) input id row.name none
              none))
    | inr e ↦ rw (e, restore_udp) refl
  ]

  restore_srt-done :
      (config : Option SrtOutputConfig)
      → is_some config ≡ true
      → (restore_srt w input_id input id row config).1.1 ≡ true
  unfolding restore_srt create_srt_output add_task
  restore_srt-done none h = absurd (ground (arith, h))
  restore_srt-done (some config) h = refl

  caller_config-reads :
      is_some (readers.parse_srt_common (unwrap_or row.config_json (codes "{}"))) ≡ true
      → is_some (caller_config readers row) ≡ true
  unfolding caller_config
  caller_config-reads h = ground (arith, h)

  listener_config-reads :
      (is_some (readers.parse_srt_common (unwrap_or row.config_json (codes "{}")))
          && is_some row.listen_port)
        ≡ true
      → is_some (listener_config readers row) ≡ true
  unfolding listener_config
  listener_config-reads h = ground (arith, h)

  restore_output-reads :
      output_reads readers row ≡ true
      → (restore_output readers site w input_id input id row).1.1 ≡ true
  unfolding restore_output active_output
  restore_output-reads reads = elim (Bool-cases (text_eq row.status (codes "stopped"))) [
    | inl s ↦ rw (s, restore_output) refl
    | inr s ↦ elim (Bool-cases (text_eq row.kind (codes "udp"))) [
      | inl u ↦ rw (s, u, restore_output, active_output) restore_udp-done
      | inr u ↦ elim (Bool-cases (text_eq row.kind (codes "srt_caller"))) [
        | inl c ↦
            rw (s, u, c, restore_output, active_output)
              (restore_srt-done (caller_config readers row)
                (caller_config-reads (ground (arith, reads, s, u, c))))
        | inr c ↦ elim (Bool-cases (text_eq row.kind (codes "srt_listener"))) [
          | inl l ↦
              rw (s, u, c, l, restore_output, active_output)
                (restore_srt-done (listener_config readers row)
                  (listener_config-reads (ground (arith, reads, s, u, c, l))))
          | inr l ↦ rw (s, u, c, l, restore_output, active_output) refl
        ]
      ]
    ]
  ]

restore_outputs-reads :
    (readers : Readers) (site : Site) (w : World) (input_id : ℕ) (input : InputInfo)
    (rows : Map OutputRow)
    → every (output_reads readers) rows ≡ true
    → (restore_outputs readers site w input_id input rows).1.1 ≡ true
unfolding restore_outputs every
restore_outputs-reads readers site w input_id input [] h = refl
restore_outputs-reads readers site w input_id input ((id, row) ∷ rows) h =
    rw (first, restore_outputs)
      (restore_outputs-reads readers site r.0 input_id r.1.0 rows (ground (arith, h)))
  where
    r : Restored
    r = restore_output readers site w input_id input id row

    first : r.1.1 ≡ true
    first = restore_output-reads readers site w input_id input id row (ground (arith, h))

load_outputs-reads :
    (readers : Readers) (site : Site) (w : World) (groups : Map (Map OutputRow))
    → every_group readers groups ≡ true
    → (load_outputs readers site w groups).1 ≡ true
unfolding load_outputs every every_group
load_outputs-reads readers site w [] h = refl
load_outputs-reads readers site w ((key, outputs) ∷ groups) h =
    elim (Option-cases (lookup key w.streams)) [
      | inl e ↦ rw (e, load_outputs) (load_outputs-reads readers site w groups (ground (arith, h)))
      | inr (input, e) ↦
          let r = restore_outputs readers site w key input outputs in
          rw
            (
              e,
              restore_outputs-reads readers site w key input outputs (ground (arith, h)),
              load_outputs,
            )
            (load_outputs-reads readers site (store key r.1.0 r.0) groups (ground (arith, h)))
    ]

every-append {ℓ} :
    {R : Type ℓ} (test : R → Bool) (rows : Map R) (id : ℕ) (row : R)
    → every test rows ≡ true
    → test row ≡ true
    → every test (rows ++ (id, row) ∷ []) ≡ true
unfolding every
every-append test [] id row h t = ground (arith, t)
every-append test ((k, r) ∷ rows) id row h t = ground (arith, h, every-append test rows id row)

every-insert {ℓ} :
    {R : Type ℓ} (test : R → Bool) (key : ℕ) (row : R) (rows : Map R)
    → test row ≡ true
    → every test rows ≡ true
    → every test (insert key row rows) ≡ true
unfolding every insert
every-insert test key row [] t h = ground (arith, t)
every-insert test key row ((k, r) ∷ rows) t h = ground (arith, t, h, every-insert test key row rows)

every-lookup {ℓ} :
    {R : Type ℓ} (test : Map R → Bool) (key : ℕ) (groups : Map (Map R))
    → test [] ≡ true
    → every test groups ≡ true
    → test (unwrap_or (lookup key groups) []) ≡ true
unfolding every lookup
every-lookup test key [] t h = t
every-lookup test key ((k, rows) ∷ groups) t h = elim (Bool-cases (k == key)) [
  | inl hit ↦ rw hit (ground (arith, h))
  | inr miss ↦ rw miss (every-lookup test key groups t (ground (arith, h)))
]

group_rows-reads :
    (readers : Readers) (rows : Map OutputRow) (groups : Map (Map OutputRow))
    → every (output_reads readers) rows ≡ true
    → every_group readers groups ≡ true
    → every_group readers (group_rows rows groups) ≡ true
unfolding group_rows every every_group
group_rows-reads readers [] groups h g = g
group_rows-reads readers ((id, row) ∷ rows) groups h g =
    group_rows-reads readers rows
      (insert row.input_id (unwrap_or (lookup row.input_id groups) [] ++ (id, row) ∷ []) groups)
      (ground (arith, h))
      (every-insert (every (output_reads readers)) row.input_id _ groups
        (every-append (output_reads readers) _ id row
          (every-lookup (every (output_reads readers)) row.input_id groups refl g)
          (ground (arith, h)))
        g)

load_spts-succeeds :
    (readers : Readers) (site : Site) (w : World) (rows : Map InputRow) (db : Database)
    → site.answers Statement.select_outputs ≡ true
    → every (input_reads readers) rows ≡ true
    → every (output_reads readers) db.outputs ≡ true
    → (load_spts readers site w rows db).1 ≡ true
unfolding load_spts get_all_outputs every every_group
load_spts-succeeds readers site w rows db read inputs outputs =
    let (m, e) =
      load_rows-reads (λ (row : InputRow). is_spts_row row && input_reads readers row)
        (spts_row readers) (spts_row-reads readers) w (rows_with is_spts_row rows) []
        (every-rows_with (input_reads readers) is_spts_row rows inputs) in
    rw (e, read, load_spts)
      (load_outputs-reads readers site _ (group_rows db.outputs [])
        (group_rows-reads readers db.outputs [] outputs refl))

-- `load_from_db` ends without an error if both queries of the tables succeed, the configuration of
-- every input of a kind that the load knows is read, and so is that of every SRT output that is not
-- stopped, with a port if it is a listener: that an input cannot be started, or an output not created,
-- does not end the load.
pub load_from_db-succeeds :
    (readers : Readers) (site : Site) (g : Gateway)
    → site.answers Statement.select_inputs ≡ true
    → site.answers Statement.select_outputs ≡ true
    → every (input_reads readers) g.database.inputs ≡ true
    → every (output_reads readers) g.database.outputs ≡ true
    → (load_from_db readers site g).1 ≡ true
unfolding load_from_db load_inputs get_all_inputs
load_from_db-succeeds readers site g first second inputs outputs =
    let rows = g.database.inputs in
    let (m, e) =
      load_rows-reads (λ (row : InputRow). is_base row && input_reads readers row)
        (base_row readers) (base_row-reads readers) g.world (rows_with is_base rows) []
        (every-rows_with (input_reads readers) is_base rows inputs) in
    rw (first, load_from_db)
      (rw (e, load_inputs)
        (load_spts-succeeds readers site _ rows g.database second inputs outputs))
