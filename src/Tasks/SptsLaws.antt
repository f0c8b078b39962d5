-- ===== src/Tasks/SptsLaws.antt =====
-- What the filtering task of src/spts_input.rs sends, against the filter of src/mpegts_filter.rs on its
-- own.
use stream_gateway.Common.{
  ℕ, ◌-◌, ◌≡◌, refl, sym, ap, ◌∙◌, Bool, true, false, none, some, List, [], ◌∷◌, ◌++◌, inl, inr,
  leb, Bool-cases, Exec, ret, ◌>>=◌,
}
use stream_gateway.Common.Texts.{Text}
use stream_gateway.Models.Status.{StreamStatus}
use stream_gateway.Filter.Packet.{Bytes}
use stream_gateway.Filter.State.{ProgramFilter, new}
use stream_gateway.Filter.Stream.{filter_packets}
use stream_gateway.Filter.Total.{filter_packets_total}
use stream_gateway.Streams.Spawn.{mpts_address}
use stream_gateway.StateProcessor.Handlers.{StateChange}
use stream_gateway.Tasks.Messages.{
  Message, change, changes, packets, changes-append, packets-append,
}
use stream_gateway.Tasks.Spts.{
  Event, mpts_data, lagged, channel_closed, cancelled, Loop, two_seconds, filtered_messages,
  after_filtered, window_messages, after_window, spts_loop, start_spts_loop, spts_task,
}

-- The messages of the source before the task ends.
abbrev pub messages_of : List Event → List Bytes
messages_of [] = []
messages_of (mpts_data bytes at ∷ events) = bytes ∷ messages_of events
messages_of (lagged ∷ events) = messages_of events
messages_of (channel_closed ∷ events) = []
messages_of (cancelled ∷ events) = []

-- The filter on one message after the other.
unfoldable pub filter_each : ProgramFilter → List Bytes → Exec (List Bytes)
filter_each f [] = ret []
filter_each f (bytes ∷ messages) =
    filter_packets f bytes >>= λ r. filter_each r.0 messages >>= λ outs. ret (r.1 ∷ outs)

-- The outputs that are not empty.
abbrev pub nonempty : List Bytes → List Bytes
nonempty [] = []
nonempty ([] ∷ outs) = nonempty outs
nonempty ((b ∷ bytes) ∷ outs) = (b ∷ bytes) ∷ nonempty outs

-- The state of an input that has sent something, and that of one whose source is gone.
abbrev pub announced : StateChange → List Bytes → List StateChange
announced connected [] = []
announced connected (out ∷ outs) = connected ∷ []

abbrev pub closing : ℕ → List Event → List StateChange
closing id [] = []
closing id (mpts_data bytes at ∷ events) = closing id events
closing id (lagged ∷ events) = closing id events
closing id (channel_closed ∷ events) =
    StateChange.input_state_changed id StreamStatus.stopped none none ∷ []
closing id (cancelled ∷ events) = []

module _ (id : ℕ) (source_addr : Text) (connected_time : ℕ) where
  abbrev connected : StateChange
  connected =
      StateChange.input_state_changed id StreamStatus.connected (some connected_time)
        (some source_addr)

  -- What is still to be announced.
  abbrev due : Bool → List Bytes → List StateChange
  due true outs = []
  due false outs = announced connected outs

  window_changes :
      (s : Loop) (at : ℕ)
      → (changes (window_messages s at) ≡ []) × (packets (window_messages s at) ≡ [])
  unfolding window_messages
  window_changes s at = elim (Bool-cases (leb two_seconds (at - s.window_start))) [
    | inl e ↦ rw (e, window_messages) (refl, refl)
    | inr e ↦ rw (e, window_messages) (refl, refl)
  ]

  window_keeps :
      (s : Loop) (at : ℕ)
      → ((after_window s at).filter ≡ s.filter)
        × ((after_window s at).is_connected ≡ s.is_connected)
  unfolding after_window
  window_keeps s at = elim (Bool-cases (leb two_seconds (at - s.window_start))) [
    | inl e ↦ rw (e, after_window) (refl, refl)
    | inr e ↦ rw (e, after_window) (refl, refl)
  ]

  due-nil : (b : Bool) → due b [] ≡ []
  due-nil true = refl
  due-nil false = refl

  filtered-keeps :
      (s : Loop) (g : ProgramFilter) (out : Bytes) → (after_filtered s g out).filter ≡ g
  unfolding after_filtered
  filtered-keeps s g [] = refl
  filtered-keeps s g (b ∷ out) = refl

  filtered_packets :
      (s : Loop) (out : Bytes) (outs : List Bytes)
      → packets (filtered_messages id source_addr connected_time s out) ++ nonempty outs
        ≡ nonempty (out ∷ outs)
  unfolding filtered_messages
  filtered_packets s [] outs = refl
  filtered_packets s (b ∷ out) outs = elim (Bool-cases s.is_connected) [
    | inl e ↦ rw (e, filtered_messages) refl
    | inr e ↦ rw (e, filtered_messages) refl
  ]

  filtered_changes :
      (s : Loop) (g : ProgramFilter) (out : Bytes) (outs : List Bytes) (rest : List StateChange)
      → changes (filtered_messages id source_addr connected_time s out)
          ++ (due (after_filtered s g out).is_connected (nonempty outs) ++ rest)
        ≡ due s.is_connected (nonempty (out ∷ outs)) ++ rest
  unfolding filtered_messages after_filtered
  filtered_changes s g [] outs rest = refl
  filtered_changes s g (b ∷ out) outs rest = elim (Bool-cases s.is_connected) [
    | inl e ↦ rw (e, filtered_messages) refl
    | inr e ↦ rw (e, filtered_messages) refl
  ]

  quiet_packets :
      (s : Loop) (at : ℕ) (sent : List Message)
      → packets (window_messages s at ++ sent) ≡ packets sent
  quiet_packets s at sent =
      packets-append (window_messages s at) sent
      ∙ ap (λ x. x ++ packets sent) (window_changes s at).1

  quiet_changes :
      (s : Loop) (at : ℕ) (sent : List Message)
      → changes (window_messages s at ++ sent) ≡ changes sent
  quiet_changes s at sent =
      changes-append (window_messages s at) sent
      ∙ ap (λ x. x ++ changes sent) (window_changes s at).0

  spts_loop-filters :
      (s : Loop) (events : List Event)
      → (outs : List Bytes) × (sent : List Message) × (filter_each s.filter (messages_of events)
          ≡ ret outs)
        × (spts_loop id source_addr connected_time s events ≡ ret sent)
        × (packets sent ≡ nonempty outs)
        × (changes sent ≡ due s.is_connected (nonempty outs) ++ closing id events)
  unfolding spts_loop filter_each
  spts_loop-filters s [] = ([], [], refl, refl, refl, rw (due-nil s.is_connected) refl)
  spts_loop-filters s (mpts_data bytes at ∷ events) =
      let (g, out, e) = filter_packets_total s.filter bytes in
      let t = after_filtered s g out in
      let (outs, sent, f, r, p, c) = spts_loop-filters (after_window t at) events in
      let kept = (window_keeps t at).0 ∙ filtered-keeps s g out in
      let each = ap (λ h. filter_each h (messages_of events)) (sym kept) ∙ f in
      (
        out ∷ outs,
        filtered_messages id source_addr connected_time s out ++ (window_messages t at ++ sent),
        rw e (rw each refl),
        rw e (rw r refl),
        packets-append (filtered_messages id source_addr connected_time s out)
              (window_messages t at ++ sent)
            ∙ (ap (λ x. packets (filtered_messages id source_addr connected_time s out) ++ x)
                  (quiet_packets t at sent ∙ p)
                ∙ filtered_packets s out outs),
        changes-append (filtered_messages id source_addr connected_time s out)
              (window_messages t at ++ sent)
            ∙ (ap (λ x. changes (filtered_messages id source_addr connected_time s out) ++ x)
                  (quiet_changes t at sent
                    ∙ (c
                        ∙ ap (λ b. due b (nonempty outs) ++ closing id events)
                            (window_keeps t at).1))
                ∙ filtered_changes s g out outs (closing id events)),
      )
  spts_loop-filters s (lagged ∷ events) = spts_loop-filters s events
  spts_loop-filters s (channel_closed ∷ events) = (
    [],
    change (StateChange.input_state_changed id StreamStatus.stopped none none) ∷ [],
    refl,
    refl,
    refl,
    rw (due-nil s.is_connected) refl,
  )
  spts_loop-filters s (cancelled ∷ events) =
      ([], [], refl, refl, refl, rw (due-nil s.is_connected) refl)

-- The task of an SPTS input never panics, whatever its source sends, and it sends on what the filter
-- makes of the messages of the source, one after the other, in order, without the outputs that are
-- empty. It reports the listening state, then the connected state if there is such an output, then
-- the stopped state if it sees its source closed, and nothing else.
pub spts_task-filters :
    (id source_id program_number : ℕ) (fill_with_nulls : Bool) (connected_time now : ℕ)
    (events : List Event)
    → (outs : List Bytes) × (sent : List Message) × (filter_each
          (new program_number fill_with_nulls)
          (messages_of events)
        ≡ ret outs)
      × (spts_task id source_id program_number fill_with_nulls connected_time now events ≡ ret sent)
      × (packets sent ≡ nonempty outs)
      × (changes sent
          ≡ StateChange.input_state_changed id StreamStatus.listening none
              (some (mpts_address source_id program_number))
            ∷ (announced
                  (StateChange.input_state_changed id StreamStatus.connected
                    (some connected_time)
                    (some (mpts_address source_id program_number)))
                  (nonempty outs)
                ++ closing id events))
unfolding spts_task start_spts_loop
spts_task-filters id source_id program_number fill_with_nulls connected_time now events =
    let (outs, sent, f, r, p, c) =
      spts_loop-filters id (mpts_address source_id program_number) connected_time
        (start_spts_loop program_number fill_with_nulls now) events in
    (outs, change listening ∷ sent, f, rw r refl, p, ap (◌∷◌ listening) c)
  where
    listening : StateChange
    listening =
        StateChange.input_state_changed id StreamStatus.listening none
          (some (mpts_address source_id program_number))
