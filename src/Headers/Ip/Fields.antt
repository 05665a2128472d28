-- ===== src/Headers/Ip/Fields.antt =====
-- The fields of an IPv4 header (framework/src/headers/ip.rs) as values of RFC 791, and what each
-- setter does to them.
use native.Mathlib.Nat.{mul-div_cancel}
use net_bricks.Prelude.{
  ℕ, ◌-◌, ◌*◌, ◌/◌, ◌%◌, ◌^◌, ◌<◌, ◌≡◌, refl, ap, ◌∙◌, bit_and, swap16, swap32, arith,
  bit_and_field, bit_and_mask,
}
use net_bricks.Headers.Ip.{IpHeader}
use net_bricks.Headers.Ip

-- The words are of 32 bits.
pub record IsWords (h : IpHeader) : Type 0 where
  pub first : h.version_to_len < 2 ^ 32
  pub second : h.id_to_foffset < 2 ^ 32
  pub third : h.ttl_to_csum < 2 ^ 32
  pub source : h.src_ip < 2 ^ 32
  pub dest : h.dst_ip < 2 ^ 32

-- The header's fields; `csum` is the one as it lies in memory, which its getter gives.
pub record Fields : Type 0 where
  pub version : ℕ
  pub ihl : ℕ
  pub dscp : ℕ
  pub ecn : ℕ
  pub length : ℕ
  pub id : ℕ
  pub flags : ℕ
  pub fragment_offset : ℕ
  pub ttl : ℕ
  pub protocol : ℕ
  pub csum : ℕ
  pub src : ℕ
  pub dst : ℕ

-- What the getters give, and the offset of RFC 791: the low 13 bits of the second word.
abbrev pub read : IpHeader → Fields
read h = record {
  version = Ip.version h;
  ihl = Ip.ihl h;
  dscp = Ip.dscp h;
  ecn = Ip.ecn h;
  length = Ip.length h;
  id = Ip.id h;
  flags = Ip.flags h;
  fragment_offset = swap32 h.id_to_foffset % 2 ^ 13;
  ttl = Ip.ttl h;
  protocol = Ip.protocol h;
  csum = Ip.csum h;
  src = Ip.src h;
  dst = Ip.dst h;
}

-- A setter's call, with its argument.
pub data Setter : Type 0 where
  to_version : ℕ → Setter
  to_ihl : ℕ → Setter
  to_dscp : ℕ → Setter
  to_ecn : ℕ → Setter
  to_length : ℕ → Setter
  to_id : ℕ → Setter
  to_flags : ℕ → Setter
  to_fragment_offset : ℕ → Setter
  to_ttl : ℕ → Setter
  to_protocol : ℕ → Setter
  to_csum : ℕ → Setter
  to_src : ℕ → Setter
  to_dst : ℕ → Setter

unfoldable pub apply : Setter → IpHeader → IpHeader
apply (to_version v) h = Ip.set_version v h
apply (to_ihl v) h = Ip.set_ihl v h
apply (to_dscp v) h = Ip.set_dscp v h
apply (to_ecn v) h = Ip.set_ecn v h
apply (to_length v) h = Ip.set_length v h
apply (to_id v) h = Ip.set_id v h
apply (to_flags v) h = Ip.set_flags v h
apply (to_fragment_offset v) h = Ip.set_fragment_offset v h
apply (to_ttl v) h = Ip.set_ttl v h
apply (to_protocol v) h = Ip.set_protocol v h
apply (to_csum v) h = Ip.set_csum v h
apply (to_src v) h = Ip.set_src v h
apply (to_dst v) h = Ip.set_dst v h

-- The arguments that the setters take: words of their types, and 13 bits of an offset.
unfoldable pub InRange : Setter → Type 0
InRange (to_version v) = v < 2 ^ 8
InRange (to_ihl v) = v < 2 ^ 8
InRange (to_dscp v) = v < 2 ^ 8
InRange (to_ecn v) = v < 2 ^ 8
InRange (to_length v) = v < 2 ^ 16
InRange (to_id v) = v < 2 ^ 16
InRange (to_flags v) = v < 2 ^ 8
InRange (to_fragment_offset v) = v < 2 ^ 13
InRange (to_ttl v) = v < 2 ^ 8
InRange (to_protocol v) = v < 2 ^ 8
InRange (to_csum v) = v < 2 ^ 16
InRange (to_src v) = v < 2 ^ 32
InRange (to_dst v) = v < 2 ^ 32

-- The new fields: the argument, cut to the width of the field.
unfoldable pub update : Setter → Fields → Fields
update (to_version v) f = record f { version = v % 2 ^ 4 }
update (to_ihl v) f = record f { ihl = v % 2 ^ 4 }
update (to_dscp v) f = record f { dscp = v % 2 ^ 6 }
update (to_ecn v) f = record f { ecn = v % 2 ^ 2 }
update (to_length v) f = record f { length = v }
update (to_id v) f = record f { id = v }
update (to_flags v) f = record f { flags = v % 2 ^ 3 }
update (to_fragment_offset v) f = record f { fragment_offset = v }
update (to_ttl v) f = record f { ttl = v }
update (to_protocol v) f = record f { protocol = v }
update (to_csum v) f = record f { csum = swap16 v }
update (to_src v) f = record f { src = v }
update (to_dst v) f = record f { dst = v }

-- the field cut out by its mask
field_of : (s k w : ℕ) → 0 < 2 ^ s → bit_and w ((2 ^ k - 1) * 2 ^ s) / 2 ^ s ≡ w / 2 ^ s % 2 ^ k
field_of s k w h =
    ap (λ (t : ℕ). t / 2 ^ s) (bit_and_field s k w) ∙ mul-div_cancel (w / 2 ^ s % 2 ^ k) h

-- The fields by arithmetic on the words.
unfoldable pub view : (w x y s d : ℕ) → Fields
view w x y s d = record {
  version = w / 2 ^ 4 % 2 ^ 4;
  ihl = w % 2 ^ 4;
  dscp = w / 2 ^ 10 % 2 ^ 6;
  ecn = w / 2 ^ 8 % 2 ^ 2;
  length = swap16 (w / 2 ^ 16);
  id = swap16 (x % 2 ^ 16);
  flags = x / 2 ^ 21 % 2 ^ 3;
  fragment_offset = swap32 x % 2 ^ 13;
  ttl = y % 2 ^ 8;
  protocol = y / 2 ^ 8 % 2 ^ 8;
  csum = y / 2 ^ 16;
  src = swap32 s;
  dst = swap32 d;
}

unfoldable pub view_of : IpHeader → Fields
view_of h = view h.version_to_len h.id_to_foffset h.ttl_to_csum h.src_ip h.dst_ip

pub read_lem : (h : IpHeader) → IsWords h → read h ≡ view_of h
unfolding view_of view
read_lem h ok =
    let w = h.version_to_len in
    let x = h.id_to_foffset in
    let y = h.ttl_to_csum in
    let version : (bit_and w 0xf0 % 2 ^ 8) / 2 ^ 4 ≡ w / 2 ^ 4 % 2 ^ 4 =
      omega (arith, bit_and_field 4 4 w) in
    let ihl : bit_and w 0x0f % 2 ^ 8 ≡ w % 2 ^ 4 = omega (arith, bit_and_mask 4 w) in
    let dscp : bit_and w 0xfc00 / 2 ^ 10 % 2 ^ 8 ≡ w / 2 ^ 10 % 2 ^ 6 =
      omega (arith, bit_and_field 10 6 w) in
    let ecn : bit_and w 0x0300 / 2 ^ 8 % 2 ^ 8 ≡ w / 2 ^ 8 % 2 ^ 2 =
      omega (arith, bit_and_field 8 2 w) in
    let length : bit_and w 0xffff0000 / 2 ^ 16 % 2 ^ 16 ≡ w / 2 ^ 16 =
      omega (arith, bit_and_field 16 16 w, ok.first) in
    let id : bit_and x 0xffff % 2 ^ 16 ≡ x % 2 ^ 16 = omega (arith, bit_and_mask 16 x) in
    let flags : bit_and (x / 2 ^ 21 % 2 ^ 16) 0x7 % 2 ^ 8 ≡ x / 2 ^ 21 % 2 ^ 3 =
      omega (arith, bit_and_mask 3 (x / 2 ^ 21 % 2 ^ 16), ok.second) in
    let ttl : bit_and y 0x000000ff % 2 ^ 8 ≡ y % 2 ^ 8 = omega (arith, bit_and_mask 8 y) in
    let protocol : bit_and y 0xff00 / 2 ^ 8 % 2 ^ 8 ≡ y / 2 ^ 8 % 2 ^ 8 =
      omega (arith, bit_and_field 8 8 y) in
    let csum : bit_and y 0xffff0000 / 2 ^ 16 % 2 ^ 16 ≡ y / 2 ^ 16 =
      omega (arith, bit_and_field 16 16 y, ok.third) in
    rw (version, ihl, dscp, ecn, length, id, flags, ttl, protocol, csum) refl
