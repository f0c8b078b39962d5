-- ===== src/Filter/Asked.antt =====
-- `should_include` and the reading of tables in `filter_packets` of src/mpegts_filter.rs, against what
-- the filter is to do.
use mathlib.Core.List.{Memᴰ}
use stream_gateway.Common.{
  ℕ, ◌≡◌, ◌⊎◌, refl, sym, subst, inl, inr, true, false, ◌&&◌, ◌==◌, Option, none, some, List, [],
  ◌∷◌, contains, arith, Bool-cases, ret,
}
use stream_gateway.Filter.Packet.{TsPacket}
use stream_gateway.Filter.State.{ProgramInfo, ProgramFilter}
use stream_gateway.Filter.Kept.{Keeps, Keeps-refl, process_pat-Keeps, process_pmt-Keeps}
use stream_gateway.Filter.Stream.{should_include, learn_in}
use stream_gateway.Filter.Pieces.{Asked, IsTable, Learns, pat, pmt, nothing}

contains-Mem : (pid : ℕ) (pids : List ℕ) → contains pids pid ≡ true → Memᴰ pid pids
unfolding contains
contains-Mem pid [] h = absurd (ground arith)
contains-Mem pid (x ∷ pids) h = elim (Bool-cases (pid == x)) [
  | inl same ↦ Memᴰ.head (ground (arith, same))
  | inr other ↦ Memᴰ.tail (contains-Mem pid pids (ground (arith, other, h)))
]

Mem-contains : (pid : ℕ) (pids : List ℕ) → Memᴰ pid pids → contains pids pid ≡ true
unfolding contains
Mem-contains pid [] m = elim m [ ]
Mem-contains pid (x ∷ pids) (Memᴰ.head e) = ground (arith, e)
Mem-contains pid (x ∷ pids) (Memᴰ.tail m) = ground (arith, Mem-contains pid pids m)

pub should_include-Asked :
    (info : Option ProgramInfo) (pid : ℕ) → should_include info pid ≡ true → Asked info pid
unfolding should_include
should_include-Asked none pid h = ground (arith, h)
should_include-Asked (some info) pid h = elim (Bool-cases (contains info.pids pid)) [
  | inl listed ↦ inr (inr (inr (contains-Mem pid info.pids listed)))
  | inr unlisted ↦ rest unlisted
]
  where
    first : contains info.pids pid ≡ false → (pid ≡ 0) ⊎ (pid ≡ 1) ⊎ (pid ≡ info.pmt_pid)
    first unlisted = ground (arith, h, unlisted)

    rest : contains info.pids pid ≡ false → Asked (some info) pid
    rest unlisted = elim (first unlisted) [
      | inl a ↦ inl a
      | inr (inl b) ↦ inr (inl b)
      | inr (inr c) ↦ inr (inr (inl c))
    ]

Asked-should_include :
    (info : Option ProgramInfo) (pid : ℕ) → Asked info pid → should_include info pid ≡ true
unfolding should_include
Asked-should_include none pid asked = ground (arith, asked)
Asked-should_include (some info) pid (inl e) = ground (arith, e)
Asked-should_include (some info) pid (inr (inl e)) = ground (arith, e)
Asked-should_include (some info) pid (inr (inr (inl e))) = ground (arith, e)
Asked-should_include (some info) pid (inr (inr (inr m))) =
    ground (arith, Mem-contains pid info.pids m)

pub should_include-not :
    (info : Option ProgramInfo) (pid : ℕ) → should_include info pid ≡ false → ¬ Asked info pid
should_include-not info pid h asked = ground (arith, h, Asked-should_include info pid asked)

pub learn_in-Learns :
    (f : ProgramFilter) (p : TsPacket) (g : ProgramFilter)
    → learn_in f.program_info f p ≡ ret g
    → Learns f p g
unfolding learn_in
learn_in-Learns f p g = go f.program_info refl
  where
    go :
        (info : Option ProgramInfo)
        → f.program_info ≡ info
        → learn_in info f p ≡ ret g
        → Learns f p g
    go none e h = elim (Bool-cases (p.pid == 0 && p.payload_unit_start)) [
      | inl is_pat ↦
          pat (ground (arith, is_pat)) (ground (arith, is_pat)) (ground (arith, is_pat, h))
      | inr other ↦
          nothing
            (subst (λ (i : Option ProgramInfo). ¬ IsTable i p) (sym e)
              (λ table. ground (arith, other, table)))
            (ground (arith, other, h))
    ]
    go (some info) e h = elim (Bool-cases (p.pid == 0 && p.payload_unit_start)) [
      | inl is_pat ↦
          pat (ground (arith, is_pat)) (ground (arith, is_pat)) (ground (arith, is_pat, h))
      | inr other ↦ elim (Bool-cases (p.pid == info.pmt_pid && p.payload_unit_start)) [
        | inl is_pmt ↦
            pmt info e (ground (arith, other, is_pmt)) (ground (arith, is_pmt))
              (ground (arith, is_pmt)) (ground (arith, other, is_pmt, h))
        | inr neither ↦
            nothing
              (subst (λ (i : Option ProgramInfo). ¬ IsTable i p) (sym e)
                (λ table. ground (arith, other, neither, table)))
              (ground (arith, other, neither, h))
      ]
    ]

pub Learns-Keeps : (f : ProgramFilter) (p : TsPacket) (g : ProgramFilter) → Learns f p g → Keeps f g
Learns-Keeps f p g (pat i s e) = (process_pat-Keeps f p.bytes).of g e
Learns-Keeps f p g (pmt info k n i s e) = (process_pmt-Keeps f p.bytes).of g e
Learns-Keeps f p g (nothing n e) = subst (Keeps f) (sym e) (Keeps-refl f)
