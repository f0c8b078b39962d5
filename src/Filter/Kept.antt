-- ===== src/Filter/Kept.antt =====
-- What reading a PAT or a PMT leaves alone.
use stream_gateway.Common.{
  ℕ, zero, suc, ◌+◌, ◌-◌, ◌/◌, ◌%◌, ◌≡◌, refl, not, Option, none, some, List, [], ◌∷◌, arith, ltb,
  ◌==◌, length, ret, Holds, Holds-ret, Holds-bind, Holds-if,
}
use stream_gateway.Filter.Packet.{Bytes, index, length_of, pid_of, TsPacket}
use stream_gateway.Filter.State.{ProgramInfo, ProgramFilter}
use stream_gateway.Filter.Tables.{
  section_offset, init_info, scan_programs, process_pat, same_version, scan_streams, set_pids,
  process_pmt,
}
use stream_gateway.Filter.Stream.{learn_in}

-- Once the program's PMT has a PID, it keeps that PID.
abbrev pub SamePmt : Option ProgramInfo → Option ProgramInfo → Type 0
SamePmt none after = Unit
SamePmt (some before) none = ⊥
SamePmt (some before) (some after) =
    (after.pmt_pid ≡ before.pmt_pid) × (after.program_number ≡ before.program_number)

pub record Keeps (f g : ProgramFilter) : Type 0 where
  pub target : g.target_program ≡ f.target_program
  pub fill : g.fill_with_nulls ≡ f.fill_with_nulls
  pub buffer : g.output_buffer ≡ f.output_buffer
  pub pmt : SamePmt f.program_info g.program_info

pub Keeps-refl : (f : ProgramFilter) → Keeps f f
Keeps-refl f = ground arith

init_info-SamePmt :
    (info : Option ProgramInfo) (program_number pid : ℕ)
    → SamePmt info (init_info info program_number pid)
unfolding init_info
init_info-SamePmt info program_number pid = ground arith

set_pids-SamePmt : (info : Option ProgramInfo) (pids : List ℕ) → SamePmt info (set_pids info pids)
unfolding set_pids
set_pids-SamePmt info pids = ground arith

scan_programs-Keeps :
    (fuel : ℕ) (f : ProgramFilter) (packet : Bytes) (i programs_end : ℕ) (g : ProgramFilter)
    → scan_programs fuel f packet i programs_end ≡ ret g
    → Keeps f g
unfolding scan_programs
scan_programs-Keeps zero f packet i programs_end g e = absurd (cc)
scan_programs-Keeps (suc fuel) f packet i programs_end g e =
    ground (arith, scan_programs-Keeps fuel f packet (i + 4) programs_end g)

Keeps-pat_version :
    {f g : ProgramFilter} (version : Option ℕ)
    → Keeps (record f { pat_version = version }) g
    → Keeps f g
Keeps-pat_version version k = ground arith

pub process_pat-Keeps :
    (f : ProgramFilter) (packet : Bytes) → Holds (Keeps f) (process_pat f packet)
unfolding process_pat
process_pat-Keeps f packet = Holds-bind (section_offset packet) _ λ start _.
    Holds-if (ltb (length packet) (start + 8)) _ _ (λ _. Holds-ret f (Keeps-refl f))
      λ _. Holds-bind (index packet start) _ λ table_id _.
        Holds-if (not (table_id == 0x00)) _ _ (λ _. Holds-ret f (Keeps-refl f))
          λ _. Holds-bind (index packet (start + 1)) _ λ length_hi _.
            Holds-bind (index packet (start + 2)) _ λ length_lo _.
              Holds-bind (index packet (start + 5)) _ λ version _.
                Holds-if (same_version f.pat_version (version / 2 % 32)) _ _
                  (λ _. Holds-ret f (Keeps-refl f))
                  λ _. record {
                    of = λ g e.
                        Keeps-pat_version (some (version / 2 % 32))
                          (scan_programs-Keeps (suc (length packet)) _ packet (start + 8) _ g e);
                  }

pub process_pmt-Keeps :
    (f : ProgramFilter) (packet : Bytes) → Holds (Keeps f) (process_pmt f packet)
unfolding process_pmt
process_pmt-Keeps f packet = Holds-bind (section_offset packet) _ λ start _.
    Holds-if (ltb (length packet) (start + 12)) _ _ (λ _. Holds-ret f (Keeps-refl f))
      λ _. Holds-bind (index packet start) _ λ table_id _.
        Holds-if (not (table_id == 0x02)) _ _ (λ _. Holds-ret f (Keeps-refl f))
          λ _. Holds-bind (index packet (start + 1)) _ λ length_hi _.
            Holds-bind (index packet (start + 2)) _ λ length_lo _.
              Holds-bind (index packet (start + 5)) _ λ version _.
                Holds-if (same_version f.pmt_version (version / 2 % 32)) _ _
                  (λ _. Holds-ret f (Keeps-refl f))
                  λ _. Holds-bind (index packet (start + 8)) _ λ pcr_hi _.
                    Holds-bind (index packet (start + 9)) _ λ pcr_lo _.
                      Holds-bind (index packet (start + 10)) _ λ info_hi _.
                        Holds-bind (index packet (start + 11)) _ λ info_lo _.
                          Holds-bind
                            (scan_streams (suc (length packet)) packet
                              (start + 12 + length_of info_hi info_lo)
                              (start + 3 + length_of length_hi length_lo - 4)
                              (pid_of pcr_hi pcr_lo ∷ []))
                            _
                            λ pids _. Holds-ret _ (record {
                              target = refl;
                              fill = refl;
                              buffer = refl;
                              pmt = set_pids-SamePmt f.program_info pids;
                            })

pub learn_in-Keeps :
    (info : Option ProgramInfo) (f : ProgramFilter) (packet : TsPacket) (g : ProgramFilter)
    → learn_in info f packet ≡ ret g
    → Keeps f g
unfolding learn_in
learn_in-Keeps info f packet g e = ground (
  arith,
  (process_pat-Keeps f packet.bytes).of g,
  (process_pmt-Keeps f packet.bytes).of g,
  Keeps-refl f,
)
