-- ===== src/Filter/Rounds.antt =====
-- One round of the loop of `filter_packets` in src/mpegts_filter.rs.
use mathlib.Core.List.{append-nil}
use stream_gateway.Common.{
  ◌≡◌, refl, ap, subst, sym, inl, inr, Option, none, some, [], ◌++◌, arith, Bool-cases, ret, Holds,
  Holds-ret, Holds-bind, Holds-if,
}
use stream_gateway.Filter.Packet.{Bytes, null_packet, TsPacket, parse}
use stream_gateway.Filter.State.{ProgramFilter}
use stream_gateway.Filter.Kept.{Keeps, SamePmt}
use stream_gateway.Filter.Asked.{
  should_include-Asked, should_include-not, learn_in-Learns, Learns-Keeps,
}
use stream_gateway.Filter.Stream.{
  put, should_include, learn_in, replace, filter_parsed, filter_packet,
}
use stream_gateway.Filter.Pieces.{Asked, Learns, Rejected, Piece, kept, nulled, dropped}

-- One round of the loop, from `f` to `g`, on `bytes`.
pub record Round (f : ProgramFilter) (bytes : Bytes) (g : ProgramFilter) : Type 0 where
  pub piece : Bytes
  pub fits : Piece f bytes piece g
  pub grows : g.output_buffer ≡ f.output_buffer ++ piece
  pub fill : g.fill_with_nulls ≡ f.fill_with_nulls
  pub target : g.target_program ≡ f.target_program
  pub pmt : SamePmt f.program_info g.program_info

replace-Round :
    (f : ProgramFilter) (bytes : Bytes) → Rejected f.program_info bytes → Round f bytes (replace f)
unfolding replace
replace-Round f bytes rejected = elim (Bool-cases f.fill_with_nulls) [
  | inl on ↦ record {
    piece = null_packet;
    fits = nulled rejected on refl (ground arith);
    grows = ground arith;
    fill = ground arith;
    target = ground arith;
    pmt = ground arith;
  }
  | inr off ↦ record {
    piece = [];
    fits = dropped rejected off refl (ground arith);
    grows = ground (arith, append-nil f.output_buffer);
    fill = ground arith;
    target = ground arith;
    pmt = ground arith;
  }
]

keep-Round :
    (f g : ProgramFilter) (p : TsPacket)
    → parse p.bytes ≡ ret (some p)
    → Asked f.program_info p.pid
    → Learns f p g
    → Keeps f g
    → Round f p.bytes (put g p.bytes)
keep-Round f g p parsed asked learns k = record {
  piece = p.bytes;
  fits = kept p g parsed asked learns refl refl;
  grows = ap (λ (b : Bytes). b ++ p.bytes) k.buffer;
  fill = k.fill;
  target = k.target;
  pmt = k.pmt;
}

filter_parsed-Round :
    (f : ProgramFilter) (p : TsPacket)
    → parse p.bytes ≡ ret (some p)
    → Holds (Round f p.bytes) (filter_parsed f (some p))
unfolding filter_parsed
filter_parsed-Round f p parsed =
    Holds-if (should_include f.program_info p.pid) _ _
      (λ t. Holds-bind (learn_in f.program_info f p) _ λ g e.
        let learns = learn_in-Learns f p g e in
        Holds-ret (put g p.bytes) (
          keep-Round f g p parsed (should_include-Asked f.program_info p.pid t) learns
            (Learns-Keeps f p g learns)))
      (λ t.
        Holds-ret (replace f)
          (replace-Round f p.bytes (inr (p, parsed, should_include-not f.program_info p.pid t))))

-- A packet that is parsed holds the bytes that were parsed.
parse-bytes : (bytes : Bytes) (p : TsPacket) → parse bytes ≡ ret (some p) → p.bytes ≡ bytes
unfolding parse
parse-bytes bytes p h = ground arith

pub filter_packet-Round :
    (f : ProgramFilter) (bytes : Bytes) → Holds (Round f bytes) (filter_packet f bytes)
unfolding filter_packet filter_parsed
filter_packet-Round f bytes = Holds-bind (parse bytes) _ go
  where
    go : (o : Option TsPacket) → parse bytes ≡ ret o → Holds (Round f bytes) (filter_parsed f o)
    go none e = Holds-ret (replace f) (replace-Round f bytes (inl e))
    go (some p) e =
        let same = parse-bytes bytes p e in
        subst (λ (b : Bytes). Holds (Round f b) (filter_parsed f (some p))) same
          (filter_parsed-Round f p (subst (λ (b : Bytes). parse b ≡ ret (some p)) (sym same) e))
