-- ===== src/Filter/Total.antt =====
-- Indexing and fuel in the filter of src/mpegts_filter.rs.
use stream_gateway.Common.{
  ℕ, zero, suc, ◌+◌, ◌-◌, ◌/◌, ◌%◌, ◌≤◌, not, ◌&&◌, ◌<◌, ◌≡◌, refl, ap, Bool, true, false, Option,
  none, some, List, [], ◌∷◌, arith, ltb, leb, length, get_elem?_total, ◌==◌, if◌then◌else◌, Exec,
  ret, Returns, Returns-bind, Returns-ret, Returns-eq-ret, ◌>>=◌,
}
use stream_gateway.Filter.Packet.{
  Bytes, ts_packet_size, ts_sync_byte, index, length_of, pid_of, TsPacket, parse,
}
use stream_gateway.Filter.State.{ProgramInfo, ProgramFilter}
use stream_gateway.Filter.Tables.{
  section_offset, scan_programs, process_pat, scan_streams, process_pmt, same_version,
}
use stream_gateway.Filter.Stream.{
  learn_in, filter_parsed, filter_packet, slice, filter_loop, filter_packets, should_include,
}

index-Returns : (packet : Bytes) (i : ℕ) → i < length packet → Returns (index packet i)
index-Returns packet i h = ground (arith, get_elem?_total packet i h)

scan_programs-Returns :
    (fuel : ℕ) (f : ProgramFilter) (packet : Bytes) (i programs_end : ℕ)
    → length packet - i < fuel
    → Returns (scan_programs fuel f packet i programs_end)
unfolding scan_programs
scan_programs-Returns zero f packet i programs_end h = absurd (omega arith)
scan_programs-Returns (suc fuel) f packet i programs_end h = ground (
  arith,
  get_elem?_total packet i,
  get_elem?_total packet (i + 1),
  get_elem?_total packet (i + 2),
  get_elem?_total packet (i + 3),
  scan_programs-Returns fuel f packet (i + 4) programs_end,
)

-- A read in bounds, and a branch on a test.
read-Returns {ℓ} :
    {B : Type ℓ} (packet : Bytes) (i : ℕ) (k : ℕ → Exec B)
    → i < length packet
    → ((a : ℕ) → Returns (k a))
    → Returns (index packet i >>= k)
read-Returns packet i k h r = Returns-bind (index packet i) k (index-Returns packet i h) λ a e. r a

if-Returns {ℓ} :
    {B : Type ℓ} (b : Bool) (x y : Exec B)
    → (b ≡ true → Returns x)
    → (b ≡ false → Returns y)
    → Returns (if b then x else y)
if-Returns true x y p q = p refl
if-Returns false x y p q = q refl

scan_streams-Returns :
    (fuel : ℕ) (packet : Bytes) (i section_end : ℕ) (pids : List ℕ)
    → length packet - i < fuel
    → Returns (scan_streams fuel packet i section_end pids)
unfolding scan_streams
scan_streams-Returns zero packet i section_end pids h = absurd (omega arith)
scan_streams-Returns (suc fuel) packet i section_end pids h =
    if-Returns (leb (i + 5) section_end && leb (i + 5) (length packet)) _ _
      (λ t.
        let below : i + 5 ≤ length packet = ground arith in
        read-Returns packet i _ (omega arith) λ stream_type.
          read-Returns packet (i + 1) _ (omega arith) λ hi.
            read-Returns packet (i + 2) _ (omega arith) λ lo.
              read-Returns packet (i + 3) _ (omega arith) λ info_hi.
                read-Returns packet (i + 4) _ (omega arith) λ info_lo.
                  scan_streams-Returns fuel packet (i + (5 + length_of info_hi info_lo)) section_end
                    (pid_of hi lo ∷ pids) (omega arith))
      (λ t. Returns-ret _)

section_offset-Returns : (packet : Bytes) → 4 < length packet → Returns (section_offset packet)
unfolding section_offset
section_offset-Returns packet h = ground (arith, get_elem?_total packet 1, get_elem?_total packet 4)

pub process_pat-Returns :
    (f : ProgramFilter) (packet : Bytes) → 4 < length packet → Returns (process_pat f packet)
unfolding process_pat
process_pat-Returns f packet h =
    Returns-bind (section_offset packet) _ (section_offset-Returns packet h) λ start e.
      if-Returns (ltb (length packet) (start + 8)) _ _ (λ _. Returns-ret _)
        λ t.
          let below : start + 8 ≤ length packet = ground arith in
          read-Returns packet start _ (omega arith) λ table_id.
            if-Returns (not (table_id == 0x00)) _ _ (λ _. Returns-ret _)
              λ _. read-Returns packet (start + 1) _ (omega arith) λ length_hi.
                read-Returns packet (start + 2) _ (omega arith) λ length_lo.
                  read-Returns packet (start + 5) _ (omega arith) λ version.
                    if-Returns (same_version f.pat_version (version / 2 % 32)) _ _
                      (λ _. Returns-ret _)
                      λ _.
                        scan_programs-Returns (suc (length packet)) _ packet (start + 8) _
                          (omega arith)

pub process_pmt-Returns :
    (f : ProgramFilter) (packet : Bytes) → 4 < length packet → Returns (process_pmt f packet)
unfolding process_pmt
process_pmt-Returns f packet h =
    Returns-bind (section_offset packet) _ (section_offset-Returns packet h) λ start e.
      if-Returns (ltb (length packet) (start + 12)) _ _ (λ _. Returns-ret _)
        λ t.
          let below : start + 12 ≤ length packet = ground arith in
          read-Returns packet start _ (omega arith) λ table_id.
            if-Returns (not (table_id == 0x02)) _ _ (λ _. Returns-ret _)
              λ _. read-Returns packet (start + 1) _ (omega arith) λ length_hi.
                read-Returns packet (start + 2) _ (omega arith) λ length_lo.
                  read-Returns packet (start + 5) _ (omega arith) λ version.
                    if-Returns (same_version f.pmt_version (version / 2 % 32)) _ _
                      (λ _. Returns-ret _)
                      λ _. read-Returns packet (start + 8) _ (omega arith) λ pcr_hi.
                        read-Returns packet (start + 9) _ (omega arith) λ pcr_lo.
                          read-Returns packet (start + 10) _ (omega arith) λ info_hi.
                            read-Returns packet (start + 11) _ (omega arith) λ info_lo.
                              Returns-bind (scan_streams _ packet _ _ _) _
                                (scan_streams-Returns (suc (length packet)) packet _ _ _
                                  (omega arith))
                                λ pids _. Returns-ret _

-- What `parse` makes of a packet holds the packet, which has the full size.
pub parse-bytes :
    (bytes : Bytes) (p : TsPacket)
    → parse bytes ≡ ret (some p)
    → (p.bytes ≡ bytes) × (length bytes ≡ ts_packet_size)
unfolding parse
parse-bytes bytes p h = ground arith

pub parse-Returns : (bytes : Bytes) → Returns (parse bytes)
unfolding parse
parse-Returns bytes =
    if-Returns (not (length bytes == ts_packet_size)) _ _ (λ _. Returns-ret _)
      λ t.
        let full : length bytes ≡ ts_packet_size = ground arith in
        read-Returns bytes 0 _ (omega arith) λ sync.
          if-Returns (not (sync == ts_sync_byte)) _ _ (λ _. Returns-ret _)
            λ _.
              read-Returns bytes 1 _ (omega arith)
                λ hi. read-Returns bytes 2 _ (omega arith) λ lo. Returns-ret _

learn_in-Returns :
    (info : Option ProgramInfo) (f : ProgramFilter) (p : TsPacket)
    → 4 < length p.bytes
    → Returns (learn_in info f p)
unfolding learn_in
learn_in-Returns none f p h = ground (arith, process_pat-Returns f p.bytes h)
learn_in-Returns (some info) f p h =
    ground (arith, process_pat-Returns f p.bytes h, process_pmt-Returns f p.bytes h)

filter_parsed-Returns :
    (f : ProgramFilter) (p : TsPacket) → 4 < length p.bytes → Returns (filter_parsed f (some p))
unfolding filter_parsed
filter_parsed-Returns f p h =
    if-Returns (should_include f.program_info p.pid) _ _
      (λ _.
        Returns-bind (learn_in f.program_info f p) _ (learn_in-Returns f.program_info f p h)
          λ g e. Returns-ret _)
      (λ _. Returns-ret _)

pub filter_packet-Returns : (f : ProgramFilter) (bytes : Bytes) → Returns (filter_packet f bytes)
unfolding filter_packet filter_parsed
filter_packet-Returns f bytes = Returns-bind (parse bytes) _ (parse-Returns bytes) go
  where
    go : (o : Option TsPacket) → parse bytes ≡ ret o → Returns (filter_parsed f o)
    go none e = Returns-ret _
    go (some p) e =
        filter_parsed-Returns f p
          (omega (arith, ap length (parse-bytes bytes p e).0, (parse-bytes bytes p e).1))

filter_loop-Returns :
    (fuel : ℕ) (f : ProgramFilter) (input : Bytes) (offset : ℕ)
    → length input - offset < fuel
    → Returns (filter_loop fuel f input offset)
unfolding filter_loop
filter_loop-Returns zero f input offset h = absurd (omega arith)
filter_loop-Returns (suc fuel) f input offset h =
    if-Returns (leb (offset + ts_packet_size) (length input)) _ _
      (λ t.
        let below : offset + 188 ≤ length input = ground arith in
        Returns-bind (filter_packet f (slice input offset)) _ (filter_packet-Returns f _)
          λ g e. filter_loop-Returns fuel g input (offset + ts_packet_size) (omega arith))
      (λ t. Returns-ret _)

-- `filter_packets` ends in a value, whatever the filter has learned and whatever the input holds:
-- no index is out of bounds, and the fuel of its three loops is enough.
pub filter_packets_total :
    (f : ProgramFilter) (input : Bytes)
    → (g : ProgramFilter) × (out : Bytes) × (filter_packets f input ≡ ret (g, out))
unfolding filter_packets
filter_packets_total f input =
    let loop = filter_loop-Returns (suc (length input)) start input 0 (omega arith) in
    let (g, e) = Returns-eq-ret _ loop in go g e
  where
    start : ProgramFilter
    start = record f { output_buffer = [] }

    go :
        (g : ProgramFilter)
        → filter_loop (suc (length input)) start input 0 ≡ ret g
        → (g : ProgramFilter) × (out : Bytes) × (filter_packets f input ≡ ret (g, out))
    go g e = (record g { output_buffer = [] }, g.output_buffer, rw e)
