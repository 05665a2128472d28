-- ===== src/Headers/Ip/Tests.antt =====
-- Runs of the setters of framework/src/headers/ip.rs.
use net_bricks.Prelude.{◌≡◌, arith}
use net_bricks.Headers.Ip.{IpHeader}
use net_bricks.Headers.Ip.Fields.{IsWords, InRange, to_dscp, apply, read, update}
use net_bricks.Headers.Ip.Update.{read-apply}

-- Version 4, five words, 84 bytes; an ICMP packet with a TTL of 64.
abbrev ping : IpHeader
ping = record {
  version_to_len = 1409286213;
  id_to_foffset = 4203520;
  ttl_to_csum = 320;
  src_ip = 16820416;
  dst_ip = 134744072;
}

ping-IsWords : IsWords ping
ping-IsWords = record {
  first = omega arith;
  second = omega arith;
  third = omega arith;
  source = omega arith;
  dest = omega arith;
}

dscp-InRange : InRange (to_dscp 110)
unfolding InRange
dscp-InRange = omega arith

read-apply_example :
    IsWords (apply (to_dscp 110) ping)
    × (read (apply (to_dscp 110) ping) ≡ update (to_dscp 110) (read ping))
read-apply_example = read-apply (to_dscp 110) ping ping-IsWords dscp-InRange
