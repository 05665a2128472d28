-- ===== src/Packets/Tests.antt =====
-- Runs of framework/src/interface/packet.rs on packets without a header and with an Ethernet header.
use net_bricks.Prelude.{
  ℕ, ◌+◌, ◌%◌, ◌*◌, ◌≤◌, ◌<◌, ◌≡◌, refl, List, [], ◌∷◌, ◌++◌, some, length, take, drop, max, arith,
  ◌⊎◌, inl,
}
use net_bricks.Prelude.Run.{returns, panics}
use net_bricks.Errors.{ok, err, metadata_too_large}
use net_bricks.Headers.Mac.{MacHeader, offset, address}
use net_bricks.MBuf.{MBuf}
use net_bricks.Packets.Bytes.{Memory, read}
use net_bricks.Packets.{
  Packet, create_packet, payload, payload_offset, payload_size, get_header, get_payload,
  deparse_header,
}
use net_bricks.Packets.Headers.{push_header, parse_header, add_to_payload_head, copy_payload}
use net_bricks.Packets.Slots.{
  write_metadata, read_metadata, freeform_metadata_size, read_header, read_offset, read_stack_depth,
}
use net_bricks.Packets.Placed.{IsPlaced}
use net_bricks.Packets.Types.{null_type, mac_type}
use net_bricks.Packets.Pushing.{get-push_header}
use net_bricks.Packets.Parsing.{deparse-parse}
use net_bricks.Packets.Payloads.{add_to_payload_head_lem}
use net_bricks.Packets.Copying.{copy_payload_lem}
use net_bricks.Packets.Metadata.{read-write_metadata}

abbrev buffer : ℕ → ℕ → MBuf
buffer addr len = record {
  buf_addr = addr;
  phys_addr = addr;
  data_off = 128;
  refcnt = 1;
  nb_segs = 1;
  port = 0;
  ol_flags = 0;
  packet_type = 0;
  pkt_len = len;
  data_len = len;
  vlan_tci = 0;
  hash = 0;
  vlan_tci_outer = 0;
  buf_len = 2176;
  timestamp = 0;
  userdata = 0;
  pool = 0;
  next = 0;
  tx_offload = 0;
  priv_size = 0;
  timesync = 0;
  seqn = 0;
  metadata = λ slot. 0;
}

abbrev memory : Memory
memory a = a % 251

-- A packet of `len` bytes that has not been parsed.
abbrev unparsed : ℕ → ℕ → Packet
unparsed addr len = create_packet (buffer addr len) (addr + 128) 0

abbrev six_bytes : Packet
six_bytes = unparsed 4096 6

six_bytes-IsPlaced : IsPlaced six_bytes
six_bytes-IsPlaced = record {
  valid = record { within = omega arith; short = omega arith; single = refl };
  placed = omega arith;
}

abbrev ethernet : MacHeader
ethernet = record { dst = address 1 2 3 4 5 6; src = address 7 8 9 10 11 12; etype = 8 }

ethernet_offset : offset ethernet ≡ 14
unfolding offset
ethernet_offset = refl

get-push_header_example :
    (mem' : Memory) × (p' : Packet) × (push_header null_type mac_type memory six_bytes ethernet
      ≡ returns (mem', some p'))
    × (get_header mac_type mem' p' ≡ ethernet)
    × (get_payload mac_type mem' p' ≡ get_payload null_type memory six_bytes)
get-push_header_example =
    get-push_header null_type mac_type memory six_bytes ethernet six_bytes-IsPlaced (omega arith)
      ethernet_offset (omega arith) (omega arith) refl

deparse-parse_example :
    ((payload_size null_type memory six_bytes ≤ mac_type.end_offset.size)
      × (parse_header null_type mac_type memory six_bytes ≡ panics))
    ⊎ ((mac_type.end_offset.size < payload_size null_type memory six_bytes)
        × ((q : Packet) × (parse_header null_type mac_type memory six_bytes ≡ returns q)
            × IsPlaced q
            × (q.header ≡ payload null_type memory six_bytes)
            × (deparse_header q (payload_offset null_type memory six_bytes) ≡ six_bytes)))
deparse-parse_example =
    deparse-parse null_type mac_type memory six_bytes six_bytes-IsPlaced (omega arith)

add_to_payload_head_lem_example :
    (mem' : Memory) × (p' : Packet) × (add_to_payload_head null_type memory six_bytes 2
      ≡ returns (mem', p', ok tt))
    × IsPlaced p'
    × (payload_size null_type mem' p' ≡ payload_size null_type memory six_bytes + 2)
    × (get_payload null_type mem' p'
        ≡ take 2 (get_payload null_type memory six_bytes)
          ++ (take 2 (get_payload null_type memory six_bytes)
              ++ drop (2 + 2) (
                  read memory
                    (payload null_type memory six_bytes)
                    (payload_size null_type memory six_bytes + 2))))
add_to_payload_head_lem_example =
    add_to_payload_head_lem null_type memory six_bytes 2 six_bytes-IsPlaced (omega arith)
      (omega arith) (omega arith) (omega arith)

-- A packet in another buffer, with ten bytes.
abbrev ten_bytes : Packet
ten_bytes = unparsed 8192 10

copy_payload_lem_example :
    (mem' : Memory) × (p' : Packet) × (copy_payload null_type memory six_bytes ten_bytes
      ≡ returns (mem', p', payload_size null_type memory ten_bytes))
    × IsPlaced p'
    × (payload_size null_type mem' p'
        ≡ max (payload_size null_type memory six_bytes) (payload_size null_type memory ten_bytes))
    × (take (payload_size null_type memory ten_bytes) (get_payload null_type mem' p')
        ≡ get_payload null_type memory ten_bytes)
copy_payload_lem_example =
    copy_payload_lem null_type memory six_bytes ten_bytes six_bytes-IsPlaced (omega arith)
      (omega arith) (inl (omega arith)) (omega arith) (omega arith)

abbrev two_words : List ℕ
two_words = 5 ∷ 6 ∷ []

read-write_metadata_example :
    ((freeform_metadata_size ≤ length two_words * 8)
      × (write_metadata six_bytes two_words ≡ (six_bytes, err metadata_too_large)))
    ⊎ ((length two_words * 8 < freeform_metadata_size)
        × ((p' : Packet) × (write_metadata six_bytes two_words ≡ (p', ok tt))
            × (read_metadata p' (length two_words) ≡ returns two_words)
            × (read_header p' ≡ read_header six_bytes)
            × (read_offset p' ≡ read_offset six_bytes)
            × (read_stack_depth p' ≡ read_stack_depth six_bytes)))
read-write_metadata_example = read-write_metadata six_bytes two_words
