-- ===== src/Examples/Filter.antt =====
-- Runs of the filter of src/mpegts_filter.rs on small streams.
use stream_gateway.Common.{
  ◌≡◌, ◌*◌, ◌/◌, refl, true, some, [], ◌∷◌, ◌++◌, length, replicate, take, drop, get_elem?,
  contains, ret,
}
use stream_gateway.Filter.Packet.{
  Bytes, ts_packet_size, null_packet, parse, pid_of, unit_start_of, length_of,
}
use stream_gateway.Filter.Tables.{
  process_pat, section_offset, same_version, scan_programs, init_info,
}
use stream_gateway.Filter.State.{ProgramFilter, new}
use stream_gateway.Filter.Stream.{
  filter_packets, filter_loop, filter_packet, filter_parsed, should_include, learn_in, replace,
}
use stream_gateway.Filter.Kept.{SamePmt}
use stream_gateway.Filter.Total.{filter_packets_total}
use stream_gateway.Filter.Pieces.{Filtered}
use stream_gateway.Filter.Output.{
  emptied, filter_packets-Filtered, filter_packets_bitrate, filter_packets-SamePmt,
}

-- A PAT that lists program 1 with the PMT on PID 256.
abbrev pat : Bytes
pat =
    (0x47 ∷ 0x40 ∷ 0x00 ∷ 0x10 ∷ 0x00 ∷ 0x00 ∷ 0xb0 ∷ 0x0d ∷ 0x00 ∷ 0x01 ∷ 0xc1 ∷ 0x00 ∷ 0x00 ∷ 0x00
      ∷ 0x01 ∷ 0xe1 ∷ 0x00 ∷ [])
    ++ replicate 171 0xff

-- A packet of PID 512, which no table names.
abbrev stray : Bytes
stray = (0x47 ∷ 0x02 ∷ 0x00 ∷ 0x10 ∷ []) ++ replicate 184 0x00

abbrev filter_one : ProgramFilter
filter_one = new 1 true

abbrev learned : ProgramFilter
learned = record filter_one {
  program_info = some (record { program_number = 1; pmt_pid = 256; pids = [] });
  pat_version = some 0;
}

run_learns : filter_packets filter_one (pat ++ stray) ≡ ret (learned, pat ++ null_packet)
unfolding filter_packets filter_loop filter_packet filter_parsed parse should_include learn_in new
    pid_of unit_start_of length_of process_pat section_offset same_version scan_programs init_info
    contains null_packet replace take drop replicate get_elem?
run_learns = refl

filter_packets_total_example :
    (g : ProgramFilter) × (out : Bytes) × (filter_packets filter_one (pat ++ stray) ≡ ret (g, out))
filter_packets_total_example = filter_packets_total filter_one (pat ++ stray)

filter_packets-Filtered_example :
    (g h : ProgramFilter) × (out : Bytes) × (filter_packets filter_one (pat ++ stray)
      ≡ ret (g, out))
    × Filtered (emptied filter_one) (pat ++ stray) out h
    × (g ≡ emptied h)
    × (g.fill_with_nulls ≡ filter_one.fill_with_nulls)
    × (g.target_program ≡ filter_one.target_program)
filter_packets-Filtered_example = filter_packets-Filtered filter_one (pat ++ stray)

fills : filter_one.fill_with_nulls ≡ true
unfolding new
fills = refl

filter_packets_bitrate_example :
    length (pat ++ null_packet) ≡ length (pat ++ stray) / ts_packet_size * ts_packet_size
filter_packets_bitrate_example =
    filter_packets_bitrate filter_one learned (pat ++ stray) (pat ++ null_packet) fills run_learns

-- A second PAT, of the next version, that puts the PMT on PID 257.
abbrev moved_pat : Bytes
moved_pat =
    (0x47 ∷ 0x40 ∷ 0x00 ∷ 0x10 ∷ 0x00 ∷ 0x00 ∷ 0xb0 ∷ 0x0d ∷ 0x00 ∷ 0x01 ∷ 0xc3 ∷ 0x00 ∷ 0x00 ∷ 0x00
      ∷ 0x01 ∷ 0xe1 ∷ 0x01 ∷ [])
    ++ replicate 171 0xff

run_moves :
    filter_packets learned moved_pat ≡ ret (record learned { pat_version = some 1 }, moved_pat)
unfolding filter_packets filter_loop filter_packet filter_parsed parse should_include learn_in new
    pid_of unit_start_of length_of process_pat section_offset same_version scan_programs init_info
    contains null_packet replace take drop replicate get_elem?
run_moves = refl

filter_packets-SamePmt_example : SamePmt learned.program_info learned.program_info
filter_packets-SamePmt_example =
    filter_packets-SamePmt learned (record learned { pat_version = some 1 }) moved_pat moved_pat
      run_moves
