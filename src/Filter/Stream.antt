-- ===== src/Filter/Stream.antt =====
-- `filter_packets` of src/mpegts_filter.rs.
use stream_gateway.Common.{
  ℕ, zero, suc, ◌+◌, Bool, ◌&&◌, ◌||◌, Option, none, some, [], ◌++◌, leb, ◌==◌, if◌then◌else◌,
  length, take, drop, contains, Exec, ret, out_of_fuel, ◌>>=◌,
}
use stream_gateway.Filter.Packet.{
  Bytes, ts_packet_size, pat_pid, cat_pid, null_packet, TsPacket, parse,
}
use stream_gateway.Filter.State.{ProgramInfo, ProgramFilter}
use stream_gateway.Filter.Tables.{process_pat, process_pmt}

-- `self.output_buffer.put(…)`
abbrev pub put : ProgramFilter → Bytes → ProgramFilter
put f bytes = record f { output_buffer = f.output_buffer ++ bytes }

unfoldable pub should_include : Option ProgramInfo → ℕ → Bool
should_include none pid = pid == pat_pid || pid == cat_pid
should_include (some info) pid =
    pid == pat_pid || pid == cat_pid || pid == info.pmt_pid || contains info.pids pid

-- The PAT and the PMT of the program are read on their way through.
unfoldable pub learn_in : Option ProgramInfo → ProgramFilter → TsPacket → Exec ProgramFilter
learn_in none f packet =
    if packet.pid == pat_pid && packet.payload_unit_start then process_pat f packet.bytes else ret f
learn_in (some info) f packet =
    if packet.pid == pat_pid && packet.payload_unit_start
    then process_pat f packet.bytes
    else if packet.pid == info.pmt_pid && packet.payload_unit_start
    then process_pmt f packet.bytes
    else ret f

unfoldable pub replace : ProgramFilter → ProgramFilter
replace f = if f.fill_with_nulls then put f null_packet else f

-- The body of the loop, on one parsed packet.
unfoldable pub filter_parsed : ProgramFilter → Option TsPacket → Exec ProgramFilter
filter_parsed f none = ret (replace f)
filter_parsed f (some packet) =
    if should_include f.program_info packet.pid
    then (do learned ← learn_in f.program_info f packet; ret (put learned packet.bytes))
    else ret (replace f)

unfoldable pub filter_packet : ProgramFilter → Bytes → Exec ProgramFilter
filter_packet f packet_data = do packet ← parse packet_data; filter_parsed f packet

-- `input.slice(offset..offset + TS_PACKET_SIZE)`
abbrev pub slice : Bytes → ℕ → Bytes
slice input offset = take ts_packet_size (drop offset input)

-- `while offset + TS_PACKET_SIZE <= input.len()`
unfoldable pub filter_loop : ℕ → ProgramFilter → Bytes → ℕ → Exec ProgramFilter
filter_loop zero f input offset = out_of_fuel
filter_loop (suc fuel) f input offset =
    let rest = λ (g : ProgramFilter). filter_loop fuel g input (offset + ts_packet_size) in
    if leb (offset + ts_packet_size) (length input)
    then (do g ← filter_packet f (slice input offset); rest g)
    else ret f

-- `ProgramFilter::filter_packets`: the filter with its buffer split off, and what the buffer held.
unfoldable pub filter_packets : ProgramFilter → Bytes → Exec (ProgramFilter × Bytes)
filter_packets f input = do
  g ← filter_loop (suc (length input)) (record f { output_buffer = [] }) input 0
  ret (record g { output_buffer = [] }, g.output_buffer)
