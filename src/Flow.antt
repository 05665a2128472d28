-- ===== src/Flow.antt =====
-- Flows and prefixes of framework/src/utils/flow.rs. Bytes are a list; an index or a slice out of
-- it panics. `ipv4_cksum`, which is not part of this code, is a parameter; the reads and writes of
-- big-endian words are those that the byteorder crate documents.
mod Tests
pub mod Prefix
pub mod Stamp
use net_bricks.Prelude.{
  ℕ, zero, suc, ◌+◌, ◌-◌, ◌*◌, ◌/◌, ◌%◌, ◌^◌, List, [], ◌∷◌, Bool, bit_and, not32, get_elem?,
  length, leb, write_slice, ◌==◌, if◌then◌else◌,
}
use net_bricks.Prelude.Run.{Run, returns, panics, bind, or_panic}

pub record Flow : Type 0 where
  pub src_ip : ℕ
  pub dst_ip : ℕ
  pub src_port : ℕ
  pub dst_port : ℕ
  pub proto : ℕ

pub record Ipv4Prefix : Type 0 where
  pub ip_address : ℕ
  pub prefix : ℕ
  pub mask : ℕ

-- `32 - prefix` and the shift wrap: the `u8` at 256, the shift's amount at 32.
unfoldable pub prefix_mask : ℕ → ℕ
prefix_mask prefix = if prefix == 0 then 0 else not32 (2 ^ ((32 + 2 ^ 8 - prefix) % 2 ^ 8 % 32) - 1)

unfoldable pub new : ℕ → ℕ → Ipv4Prefix
unfolding prefix_mask
new address prefix = record {
  ip_address = bit_and address (prefix_mask prefix);
  prefix = prefix;
  mask = prefix_mask prefix;
}

abbrev pub in_range : Ipv4Prefix → ℕ → Bool
in_range p address = bit_and address p.mask == p.ip_address

abbrev pub ihl_to_byte_factor : ℕ
ihl_to_byte_factor = 4

infixl 5 ◌>>=◌
abbrev ◌>>=◌ {ℓ κ} : {A : Type ℓ} {B : Type κ} → Run A → (A → Run B) → Run B
m >>= f = bind m f

-- `bytes[i]`
abbrev pub byte : List ℕ → ℕ → Run ℕ
byte bytes i = or_panic (get_elem? bytes i)

-- `BigEndian::read_u16(&bytes[i..(i + 2)])` and `read_u32`
unfoldable pub read_u16 : List ℕ → ℕ → Run ℕ
read_u16 bytes i = do a ← byte bytes i; b ← byte bytes (i + 1); returns (a * 2 ^ 8 + b)

unfoldable pub read_u32 : List ℕ → ℕ → Run ℕ
unfolding read_u16
read_u32 bytes i = do a ← read_u16 bytes i; b ← read_u16 bytes (i + 2); returns (a * 2 ^ 16 + b)

-- `BigEndian::write_u16(&mut bytes[i..(i + 2)], x)` and `write_u32`
unfoldable pub write_u16 : List ℕ → ℕ → ℕ → Run (List ℕ)
write_u16 bytes i x =
    if leb (i + 2) (length bytes)
    then returns (write_slice i bytes (x / 2 ^ 8 % 2 ^ 8 ∷ x % 2 ^ 8 ∷ []))
    else panics

unfoldable pub write_u32 : List ℕ → ℕ → ℕ → Run (List ℕ)
write_u32 bytes i x =
    if leb (i + 4) (length bytes)
    then returns (
        write_slice i bytes
          (x / 2 ^ 24 % 2 ^ 8 ∷ x / 2 ^ 16 % 2 ^ 8 ∷ x / 2 ^ 8 % 2 ^ 8 ∷ x % 2 ^ 8 ∷ []))
    else panics

unfoldable pub ipv4_extract_flow : List ℕ → Run Flow
unfolding read_u16 read_u32
ipv4_extract_flow bytes = do
  b ← byte bytes 0
  let port_start = bit_and b 0xf * ihl_to_byte_factor
  proto ← byte bytes 9
  src_ip ← read_u32 bytes 12
  dst_ip ← read_u32 bytes 16
  src_port ← read_u16 bytes port_start
  dst_port ← read_u16 bytes (port_start + 2)
  returns (record {
    src_ip = src_ip;
    dst_ip = dst_ip;
    src_port = src_port;
    dst_port = dst_port;
    proto = proto;
  })

abbrev pub reverse_flow : Flow → Flow
reverse_flow f = record {
  src_ip = f.dst_ip;
  dst_ip = f.src_ip;
  src_port = f.dst_port;
  dst_port = f.src_port;
  proto = f.proto;
}

-- `ipv4_cksum` reads the header of the payload.
unfoldable pub ipv4_stamp_flow : (List ℕ → ℕ) → Flow → List ℕ → Run (List ℕ)
unfolding write_u16 write_u32
ipv4_stamp_flow ipv4_cksum f bytes = do
  b ← byte bytes 0
  let port_start = bit_and b 0xf * ihl_to_byte_factor
  bytes ← write_u32 bytes 12 f.src_ip
  bytes ← write_u32 bytes 16 f.dst_ip
  bytes ← write_u16 bytes port_start f.src_port
  bytes ← write_u16 bytes (port_start + 2) f.dst_port
  bytes ← write_u16 bytes 10 0
  write_u16 bytes 10 (ipv4_cksum bytes)
