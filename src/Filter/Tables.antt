-- ===== src/Filter/Tables.antt =====
-- `process_pat` and `process_pmt` of src/mpegts_filter.rs. The loops run on fuel, one more than the
-- packet has bytes: each round moves on and stops at the end of the packet.
use stream_gateway.Common.{
  ℕ, zero, suc, ◌+◌, ◌-◌, ◌*◌, ◌/◌, ◌%◌, Bool, false, not, ◌&&◌, Option, none, some, List, [], ◌∷◌,
  ltb, leb, ◌==◌, if◌then◌else◌, length, Exec, ret, out_of_fuel, ◌>>=◌,
}
use stream_gateway.Filter.Packet.{Bytes, index, pid_of, length_of, unit_start_of}
use stream_gateway.Filter.State.{ProgramInfo, ProgramFilter}

-- The start of the section: behind the header of 4 bytes, and the pointer field with what it skips.
unfoldable pub section_offset : Bytes → Exec ℕ
section_offset packet = do
  flags ← index packet 1
  if unit_start_of flags then (do pointer ← index packet 4; ret (4 + (1 + pointer))) else ret 4

-- `if let Some(current_version) = … { if current_version == version { return; } }`
unfoldable pub same_version : Option ℕ → ℕ → Bool
same_version none version = false
same_version (some current) version = current == version

-- The program info that is kept, or a new one with no PIDs.
unfoldable pub init_info : Option ProgramInfo → ℕ → ℕ → Option ProgramInfo
init_info none program_number pid =
    some (record { program_number = program_number; pmt_pid = pid; pids = [] })
init_info (some info) program_number pid = some info

-- `for i in (programs_start..programs_end).step_by(4)`
unfoldable pub scan_programs : ℕ → ProgramFilter → Bytes → ℕ → ℕ → Exec ProgramFilter
unfolding init_info
scan_programs zero f packet i programs_end = out_of_fuel
scan_programs (suc fuel) f packet i programs_end =
    let rest = scan_programs fuel f packet (i + 4) programs_end in
    if not (ltb i programs_end) then ret f else if ltb (length packet) (i + 4) then ret f else do
      number_hi ← index packet i
      number_lo ← index packet (i + 1)
      hi ← index packet (i + 2)
      lo ← index packet (i + 3)
      if number_hi * 256 + number_lo == f.target_program
          then ret (record f {
            program_info = init_info f.program_info (number_hi * 256 + number_lo) (pid_of hi lo);
          })
          else rest

-- `ProgramFilter::process_pat`. The subtraction does not go below 0: `start` is at least 4.
unfoldable pub process_pat : ProgramFilter → Bytes → Exec ProgramFilter
process_pat f packet = do
  start ← section_offset packet
  if ltb (length packet) (start + 8) then ret f else do
    table_id ← index packet start
    if not (table_id == 0x00) then ret f else do
      length_hi ← index packet (start + 1)
      length_lo ← index packet (start + 2)
      version_byte ← index packet (start + 5)
      if same_version f.pat_version (version_byte / 2 % 32)
          then ret f
          else scan_programs (suc (length packet))
              (record f { pat_version = some (version_byte / 2 % 32) }) packet (start + 8)
              (start + 3 + length_of length_hi length_lo - 4)

-- `while stream_offset + 5 <= section_end && stream_offset + 5 <= data.len()`
unfoldable pub scan_streams : ℕ → Bytes → ℕ → ℕ → List ℕ → Exec (List ℕ)
scan_streams zero packet stream_offset section_end pids = out_of_fuel
scan_streams (suc fuel) packet stream_offset section_end pids =
    let rest = λ (next : ℕ) (found : List ℕ). scan_streams fuel packet next section_end found in
    if leb (stream_offset + 5) section_end && leb (stream_offset + 5) (length packet)
    then (do
      stream_type ← index packet stream_offset
      hi ← index packet (stream_offset + 1)
      lo ← index packet (stream_offset + 2)
      info_hi ← index packet (stream_offset + 3)
      info_lo ← index packet (stream_offset + 4)
      rest (stream_offset + (5 + length_of info_hi info_lo)) (pid_of hi lo ∷ pids))
    else ret pids

-- `if let Some(ref mut info) = self.program_info { info.pids = pids; }`
unfoldable pub set_pids : Option ProgramInfo → List ℕ → Option ProgramInfo
set_pids none pids = none
set_pids (some info) pids = some (record info { pids = pids })

-- `ProgramFilter::process_pmt`. The subtraction does not go below 0: `start` is at least 4.
unfoldable pub process_pmt : ProgramFilter → Bytes → Exec ProgramFilter
process_pmt f packet = do
  start ← section_offset packet
  if ltb (length packet) (start + 12) then ret f else do
    table_id ← index packet start
    if not (table_id == 0x02) then ret f else do
      length_hi ← index packet (start + 1)
      length_lo ← index packet (start + 2)
      version_byte ← index packet (start + 5)
      if same_version f.pmt_version (version_byte / 2 % 32) then ret f else do
        pcr_hi ← index packet (start + 8)
        pcr_lo ← index packet (start + 9)
        info_hi ← index packet (start + 10)
        info_lo ← index packet (start + 11)
        pids ←
            scan_streams (suc (length packet)) packet (start + 12 + length_of info_hi info_lo)
              (start + 3 + length_of length_hi length_lo - 4) (pid_of pcr_hi pcr_lo ∷ [])
        ret (record f {
          pmt_version = some (version_byte / 2 % 32);
          program_info = set_pids f.program_info pids;
        })
