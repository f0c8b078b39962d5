-- ===== src/Filter/Pieces.antt =====
-- What the filter of src/mpegts_filter.rs is to put out, packet by packet, and how what it knows of the
-- program moves on.
use mathlib.Core.List.{Memᴰ}
use stream_gateway.Common.{
  ℕ, ◌≤◌, ◌<◌, ◌≡◌, ◌≢◌, ◌⊎◌, true, false, Option, none, some, [], ◌++◌, length, take, drop, ret,
}
use stream_gateway.Filter.Packet.{Bytes, ts_packet_size, null_packet, TsPacket, parse}
use stream_gateway.Filter.State.{ProgramInfo, ProgramFilter}
use stream_gateway.Filter.Tables.{process_pat, process_pmt}
use stream_gateway.Filter.Stream.{put}

-- The PIDs 0 and 1, of the PAT and the CAT, and when the program is known, the PID of its PMT and those
-- that the PMT lists.
abbrev pub Asked : Option ProgramInfo → ℕ → Type 0
Asked none pid = (pid ≡ 0) ⊎ (pid ≡ 1)
Asked (some info) pid = (pid ≡ 0) ⊎ (pid ≡ 1) ⊎ (pid ≡ info.pmt_pid) ⊎ Memᴰ pid info.pids

-- The packet is broken, or its PID is not one that the tables known so far ask for.
abbrev pub Rejected : Option ProgramInfo → Bytes → Type 0
Rejected info packet =
    (parse packet ≡ ret none)
    ⊎ ((p : TsPacket) × (parse packet ≡ ret (some p)) × (¬ Asked info p.pid))

-- The packet begins a PAT, or the PMT of the program.
abbrev pub IsTable : Option ProgramInfo → TsPacket → Type 0
IsTable none p = (p.pid ≡ 0) × (p.payload_unit_start ≡ true)
IsTable (some info) p = ((p.pid ≡ 0) ⊎ (p.pid ≡ info.pmt_pid)) × (p.payload_unit_start ≡ true)

-- What a packet that is kept teaches: the beginning of a PAT is read as one, that of the PMT of the
-- known program as one, and nothing else changes the filter.
pub data Learns (f : ProgramFilter) (p : TsPacket) (g : ProgramFilter) : Type 0 where
  pat : p.pid ≡ 0 → p.payload_unit_start ≡ true → process_pat f p.bytes ≡ ret g → Learns f p g
  pmt :
      (info : ProgramInfo)
      → f.program_info ≡ some info
      → p.pid ≢ 0
      → p.pid ≡ info.pmt_pid
      → p.payload_unit_start ≡ true
      → process_pmt f p.bytes ≡ ret g
      → Learns f p g
  nothing : ¬ IsTable f.program_info p → g ≡ f → Learns f p g

-- What stands in the output for one packet of the input, and the filter after it.
pub data Piece (f : ProgramFilter) (packet : Bytes) : Bytes → ProgramFilter → Type 0 where
  kept :
      {out : Bytes} {g : ProgramFilter} (p : TsPacket) (learned : ProgramFilter)
      → parse packet ≡ ret (some p)
      → Asked f.program_info p.pid
      → Learns f p learned
      → out ≡ packet
      → g ≡ put learned packet
      → Piece f packet out g
  nulled :
      {out : Bytes} {g : ProgramFilter}
      → Rejected f.program_info packet
      → f.fill_with_nulls ≡ true
      → out ≡ null_packet
      → g ≡ put f null_packet
      → Piece f packet out g
  dropped :
      {out : Bytes} {g : ProgramFilter}
      → Rejected f.program_info packet
      → f.fill_with_nulls ≡ false
      → out ≡ []
      → g ≡ f
      → Piece f packet out g

-- The output for an input and the filter after it, packet by packet; a last piece that is shorter than
-- a packet is lost.
pub data Filtered : ProgramFilter → Bytes → Bytes → ProgramFilter → Type 0 where
  short :
      {f g : ProgramFilter} {input out : Bytes}
      → length input < ts_packet_size
      → out ≡ []
      → g ≡ f
      → Filtered f input out g
  packet :
      {f g h : ProgramFilter} {input out piece rest : Bytes}
      → ts_packet_size ≤ length input
      → Piece f (take ts_packet_size input) piece g
      → out ≡ piece ++ rest
      → Filtered g (drop ts_packet_size input) rest h
      → Filtered f input out h
