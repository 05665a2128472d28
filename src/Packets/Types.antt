-- ===== src/Packets/Types.antt =====
-- The bytes of two header structures, which are packed: framework/src/headers/null_header.rs and
-- mac.rs. An address has six bytes; a word lies with its low byte first.
use net_bricks.Prelude.{
  ℕ, ◌+◌, ◌/◌, ◌%◌, ◌*◌, ◌≡◌, refl, List, [], ◌∷◌, ◌++◌, arith, length, length-take, length-append,
  length-replicate, take, drop, replicate, get_or,
}
use net_bricks.Headers.Null.{NullHeader, null_offset}
use net_bricks.Headers.Mac.{MacHeader, mac_offset}
use net_bricks.Packets.{HeaderType}

abbrev pub null_type : HeaderType NullHeader NullHeader
null_type = record {
  end_offset = null_offset;
  size_of = 0;
  to_bytes = λ h. [];
  from_bytes = λ bytes. record {};
  length-to_bytes = λ h. refl;
}

abbrev six : List ℕ → List ℕ
six bytes = take 6 (bytes ++ replicate 6 0)

length-six : (bytes : List ℕ) → length (six bytes) ≡ 6
length-six bytes = omega (
  arith,
  length-take 6 (bytes ++ replicate 6 0),
  length-append bytes (replicate 6 0),
  length-replicate 6 (◌+◌ 0 0),
)

abbrev mac_bytes : MacHeader → List ℕ
mac_bytes h = six h.dst.addr ++ (six h.src.addr ++ h.etype % 256 ∷ (h.etype / 256) % 256 ∷ [])

pub length-mac_bytes : (h : MacHeader) → length (mac_bytes h) ≡ 14
length-mac_bytes h =
    let etype : List ℕ = h.etype % 256 ∷ (h.etype / 256) % 256 ∷ [] in
    omega (
      arith,
      length-append (six h.dst.addr) (six h.src.addr ++ etype),
      length-append (six h.src.addr) etype,
      length-six h.dst.addr,
      length-six h.src.addr,
    )

abbrev mac_from_bytes : List ℕ → MacHeader
mac_from_bytes bytes = record {
  dst = record { addr = take 6 bytes };
  src = record { addr = take 6 (drop 6 bytes) };
  etype = get_or bytes 12 0 + get_or bytes 13 0 * 256;
}

abbrev pub mac_type : HeaderType MacHeader NullHeader
mac_type = record {
  end_offset = mac_offset;
  size_of = 14;
  to_bytes = mac_bytes;
  from_bytes = mac_from_bytes;
  length-to_bytes = length-mac_bytes;
}
