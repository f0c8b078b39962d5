-- ===== src/Filter/Packet.antt =====
-- Transport stream packets of src/mpegts_filter.rs. Bytes are numbers; `x & (2^k - 1)` is written
-- `x % 2^k`, and `(hi << 8) | lo` of bytes is `hi * 256 + lo`.
use stream_gateway.Common.{
  ℕ, ◌+◌, ◌-◌, ◌*◌, ◌/◌, ◌%◌, Bool, not, Option, none, some, List, [], ◌∷◌, ◌++◌, ◌==◌,
  if◌then◌else◌, length, get_elem?, replicate, Exec, ret, or_panic, ◌>>=◌,
}

abbrev pub Bytes : Type 0
Bytes = List ℕ

abbrev pub ts_packet_size : ℕ
ts_packet_size = 188

abbrev pub ts_sync_byte : ℕ
ts_sync_byte = 0x47

abbrev pub pat_pid : ℕ
pat_pid = 0x0000

abbrev pub null_pid : ℕ
null_pid = 0x1fff

abbrev pub cat_pid : ℕ
cat_pid = 0x0001

-- `NULL_PACKET`: four header bytes, resized to a packet with 0xFF.
unfoldable pub null_packet : Bytes
null_packet = (ts_sync_byte ∷ 0x1f ∷ 0xff ∷ 0x10 ∷ []) ++ replicate (ts_packet_size - 4) 0xff

pub record TsPacket : Type 0 where
  pub pid : ℕ
  pub payload_unit_start : Bool
  pub bytes : Bytes

-- `data[i]`
abbrev pub index : Bytes → ℕ → Exec ℕ
index bytes i = or_panic (get_elem? bytes i)

-- `(((hi & 0x1F) as u16) << 8) | (lo as u16)`
unfoldable pub pid_of : ℕ → ℕ → ℕ
pid_of hi lo = (hi % 32) * 256 + lo

-- `(((hi & 0x0F) as usize) << 8) | (lo as usize)`
unfoldable pub length_of : ℕ → ℕ → ℕ
length_of hi lo = (hi % 16) * 256 + lo

-- `b & 0x40 != 0`
unfoldable pub unit_start_of : ℕ → Bool
unit_start_of b = b / 64 % 2 == 1

-- `TsPacket::parse`
unfoldable pub parse : Bytes → Exec (Option TsPacket)
parse bytes = if not (length bytes == ts_packet_size) then ret none else do
  sync ← index bytes 0
  if not (sync == ts_sync_byte) then ret none else do
    hi ← index bytes 1
    lo ← index bytes 2
    ret (some (record { pid = pid_of hi lo; payload_unit_start = unit_start_of hi; bytes = bytes }))
