-- ===== src/Filter/State.antt =====
-- `ProgramInfo` and `ProgramFilter` of src/mpegts_filter.rs. A `HashSet<u16>` is the list of what
-- was inserted.
use stream_gateway.Common.{ℕ, Bool, Option, none, List, []}
use stream_gateway.Filter.Packet.{Bytes}

pub record ProgramInfo : Type 0 where
  pub program_number : ℕ
  pub pmt_pid : ℕ
  pub pids : List ℕ

pub record ProgramFilter : Type 0 where
  pub target_program : ℕ
  pub program_info : Option ProgramInfo
  pub pat_version : Option ℕ
  pub pmt_version : Option ℕ
  pub pat_continuity : ℕ
  pub pmt_continuity : ℕ
  pub pat_cache : Option Bytes
  pub pmt_cache : Option Bytes
  pub fill_with_nulls : Bool
  pub output_buffer : Bytes

-- `ProgramFilter::new`
unfoldable pub new : ℕ → Bool → ProgramFilter
new program_number fill_with_nulls = record {
  target_program = program_number;
  program_info = none;
  pat_version = none;
  pmt_version = none;
  pat_continuity = 0;
  pmt_continuity = 0;
  pat_cache = none;
  pmt_cache = none;
  fill_with_nulls = fill_with_nulls;
  output_buffer = [];
}
