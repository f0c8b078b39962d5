-- ===== src/Filter/Output.antt =====
-- The loop of `filter_packets` in src/mpegts_filter.rs, from an offset on, and what it puts out.
use mathlib.Core.List.{append-nil, append_assoc}
use mathlib.Core.Bool.{false≢true}
use stream_gateway.Common.{
  ℕ, zero, suc, ◌+◌, ◌*◌, ◌/◌, ◌≤◌, ◌<◌, ◌≡◌, refl, ap, subst, ◌∙◌, sym, true, Option, none, some,
  [], ◌++◌, arith, leb, length, take, drop, replicate, length-append, length-take, length-drop,
  drop-drop, drop-zero, leb→le, leb→lt, ret, Holds, Holds-ret, Holds-bind, Holds-if,
}
use stream_gateway.Filter.Packet.{Bytes, ts_packet_size, null_packet}
use stream_gateway.Filter.State.{ProgramInfo, ProgramFilter}
use stream_gateway.Filter.Kept.{SamePmt}
use stream_gateway.Filter.Total.{filter_packets_total}
use stream_gateway.Filter.Stream.{filter_packet, slice, filter_loop, filter_packets}
use stream_gateway.Filter.Pieces.{Piece, kept, nulled, dropped, Filtered, short, packet}
use stream_gateway.Filter.Asked.{Learns-Keeps}
use stream_gateway.Filter.Rounds.{Round, filter_packet-Round}

SamePmt-trans : (a b c : Option ProgramInfo) → SamePmt a b → SamePmt b c → SamePmt a c
SamePmt-trans none b c h k = tt
SamePmt-trans (some a) none c h k = absurd h
SamePmt-trans (some a) (some b) none h k = absurd k
SamePmt-trans (some a) (some b) (some c) h k = (k.0 ∙ h.0, k.1 ∙ h.1)

-- The loop from an offset on.
record Run (f : ProgramFilter) (input : Bytes) (g : ProgramFilter) : Type 0 where
  out : Bytes
  filtered : Filtered f input out g
  grows : g.output_buffer ≡ f.output_buffer ++ out
  fill : g.fill_with_nulls ≡ f.fill_with_nulls
  target : g.target_program ≡ f.target_program
  pmt : SamePmt f.program_info g.program_info

Run-cons :
    (f g h : ProgramFilter) (input : Bytes)
    → ts_packet_size ≤ length input
    → Round f (take ts_packet_size input) g
    → Run g (drop ts_packet_size input) h
    → Run f input h
Run-cons f g h input long first rest = record {
  out = first.piece ++ rest.out;
  filtered = packet long first.fits refl rest.filtered;
  grows =
      rest.grows
      ∙ ap (λ (b : Bytes). b ++ rest.out) first.grows
      ∙ append_assoc f.output_buffer first.piece rest.out;
  fill = rest.fill ∙ first.fill;
  target = rest.target ∙ first.target;
  pmt = SamePmt-trans f.program_info g.program_info h.program_info first.pmt rest.pmt;
}

Run-short : (f : ProgramFilter) (input : Bytes) → length input < ts_packet_size → Run f input f
Run-short f input h = record {
  out = [];
  filtered = short h refl refl;
  grows = sym (append-nil f.output_buffer);
  fill = refl;
  target = refl;
  pmt = ground arith;
}

filter_loop-Run :
    (fuel : ℕ) (f : ProgramFilter) (input : Bytes) (offset : ℕ)
    → Holds (Run f (drop offset input)) (filter_loop fuel f input offset)
unfolding filter_loop
filter_loop-Run zero f input offset = record { of = λ a e. absurd (cc) }
filter_loop-Run (suc fuel) f input offset =
    Holds-if (leb (offset + ts_packet_size) (length input)) _ _
      (λ t. Holds-bind (filter_packet f (slice input offset)) _ λ g e. record {
        of = λ h r.
            Run-cons f g h (drop offset input)
              (omega (
                arith,
                length-drop offset input,
                leb→le (offset + ts_packet_size) (length input) t,
              ))
              ((filter_packet-Round f (slice input offset)).of g e)
              (rw drop-drop ((filter_loop-Run fuel g input (offset + ts_packet_size)).of h r));
      })
      (λ t. Holds-ret f (
        Run-short f (drop offset input) (
          omega
            (arith, length-drop offset input, leb→lt (offset + ts_packet_size) (length input) t))))

-- The filter with an empty buffer, which `filter_packets` starts with and gives back.
abbrev pub emptied : ProgramFilter → ProgramFilter
emptied f = record f { output_buffer = [] }

filter_packets-Run :
    (f g : ProgramFilter) (input out : Bytes)
    → filter_packets f input ≡ ret (g, out)
    → (h : ProgramFilter) × Filtered (emptied f) input out h
      × (g ≡ emptied h)
      × (g.fill_with_nulls ≡ f.fill_with_nulls)
      × (g.target_program ≡ f.target_program)
      × SamePmt f.program_info g.program_info
unfolding filter_packets
filter_packets-Run f g input out e =
    (Holds-bind
        {P = λ r.
          (h : ProgramFilter) × Filtered (emptied f) input r.1 h
          × (r.0 ≡ emptied h)
          × (r.0.fill_with_nulls ≡ f.fill_with_nulls)
          × (r.0.target_program ≡ f.target_program)
          × SamePmt f.program_info r.0.program_info}
        (filter_loop (suc (length input)) (emptied f) input 0) _
        λ h r.
          let run = (filter_loop-Run (suc (length input)) (emptied f) input 0).of h r in
          Holds-ret _ (
            h,
            subst (λ (b : Bytes). Filtered (emptied f) input b h) (sym run.grows)
                (subst (λ (b : Bytes). Filtered (emptied f) b run.out h) (drop-zero input)
                  run.filtered),
            refl,
            run.fill,
            run.target,
            run.pmt,
          )).of
      (g, out) e

-- `filter_packets` ends in a value on every input. What it puts out is the input packet by packet: a
-- whole packet is copied if it parses and its PID is 0 or 1 or one that is known of the program when
-- the packet comes, that of the PMT or one in the PMT's list; it is else replaced by the null packet if
-- the filter fills with nulls, or left out if it does not. Only a copied packet changes the filter, and
-- it does so as `process_pat` does if it begins a PAT, as `process_pmt` does if it begins the PMT of the
-- known program, and not at all otherwise. The filter that is given back is the one after the last
-- packet with its buffer emptied; its target and its fill mode are those of the start.
pub filter_packets-Filtered :
    (f : ProgramFilter) (input : Bytes)
    → (g h : ProgramFilter) × (out : Bytes) × (filter_packets f input ≡ ret (g, out))
      × Filtered (emptied f) input out h
      × (g ≡ emptied h)
      × (g.fill_with_nulls ≡ f.fill_with_nulls)
      × (g.target_program ≡ f.target_program)
filter_packets-Filtered f input =
    let (g, out, e) = filter_packets_total f input in
    let (h, filtered, last, fill, target, pmt) = filter_packets-Run f g input out e in
    (g, h, out, e, filtered, last, fill, target)

length-null_packet : length null_packet ≡ ts_packet_size
unfolding null_packet replicate
length-null_packet = refl

-- One packet gives one packet's length, and the fill mode stays.
length-Piece :
    {f g : ProgramFilter} {bytes piece : Bytes}
    → f.fill_with_nulls ≡ true
    → length bytes ≡ ts_packet_size
    → Piece f bytes piece g
    → (length piece ≡ ts_packet_size) × (g.fill_with_nulls ≡ true)
length-Piece {f = f} on whole (kept p learned _ _ learns e same) = (
  ap length e ∙ whole,
  ap (λ (h : ProgramFilter). h.fill_with_nulls) same
      ∙ ((Learns-Keeps f p learned learns).fill ∙ on),
)
length-Piece on whole (nulled _ _ e same) =
    (ap length e ∙ length-null_packet, ap (λ (h : ProgramFilter). h.fill_with_nulls) same ∙ on)
length-Piece on whole (dropped _ off _ _) = absurd (false≢true (sym off ∙ on))

length-Filtered :
    {f g : ProgramFilter} {input out : Bytes}
    → f.fill_with_nulls ≡ true
    → Filtered f input out g
    → length out ≡ length input / ts_packet_size * ts_packet_size
length-Filtered on (short h e _) = omega (arith, ap length e)
length-Filtered {input = input} on (packet {piece = piece} {rest = rest} long fits e r) =
    let (one, still) = length-Piece on (length-take ts_packet_size input long) fits in
    omega (
      arith,
      one,
      ap length e,
      length-append piece rest,
      length-Filtered still r,
      length-drop ts_packet_size input,
    )

-- A filter that fills with nulls keeps the bit rate: of an input of n bytes it puts out all the
-- whole packets' bytes, `n / 188 * 188`.
pub filter_packets_bitrate :
    (f g : ProgramFilter) (input out : Bytes)
    → f.fill_with_nulls ≡ true
    → filter_packets f input ≡ ret (g, out)
    → length out ≡ length input / ts_packet_size * ts_packet_size
filter_packets_bitrate f g input out on e =
    length-Filtered {f = emptied f} on (filter_packets-Run f g input out e).1

-- Once the filter knows the program, no later input makes it follow another PMT: the PID and the
-- program number that it has learned first stay, also when a new PAT version moves the PMT.
pub filter_packets-SamePmt :
    (f g : ProgramFilter) (input out : Bytes)
    → filter_packets f input ≡ ret (g, out)
    → SamePmt f.program_info g.program_info
filter_packets-SamePmt f g input out e = (filter_packets-Run f g input out e).5
