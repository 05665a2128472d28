-- ===== src/Headers/Ip/Setters.antt =====
-- The setters of framework/src/headers/ip.rs change the field they name and no other.
use net_bricks.Prelude.{
  ℕ, ◌+◌, ◌-◌, ◌*◌, ◌/◌, ◌%◌, ◌^◌, ◌<◌, ◌≡◌, sym, ap, ap₂, ◌∙◌, bit_and, bit_or, swap16, swap16-lt,
  not32, arith, put_field, bit_and_mask,
}
use net_bricks.Headers.Ip.{IpHeader}
use net_bricks.Headers.Ip.Fields.{
  IsWords, apply, InRange, to_version, to_ihl, to_dscp, to_ecn, to_length, to_id, to_flags, to_ttl,
  to_protocol, to_csum,
}

-- A word with a field of `k` bits above `s` low ones overwritten.
unfoldable pub field_put : (s k w v : ℕ) → ℕ
field_put s k w v = (w / 2 ^ s / 2 ^ k * 2 ^ k + v) * 2 ^ s + w % 2 ^ s

-- a field that the setter masks
put_masked :
    (s k w v : ℕ)
    → w < 2 ^ 32
    → (2 ^ k - 1) * 2 ^ s < 2 ^ 32
    → v % 2 ^ k < 2 ^ k
    → bit_or (bit_and w (not32 ((2 ^ k - 1) * 2 ^ s))) (bit_and v (2 ^ k - 1) * 2 ^ s)
      ≡ field_put s k w (v % 2 ^ k)
unfolding field_put
put_masked s k w v hw hm hv =
    ap (λ (t : ℕ). bit_or (bit_and w (not32 ((2 ^ k - 1) * 2 ^ s))) (t * 2 ^ s)) (bit_and_mask k v)
    ∙ put_field 32 s k w (v % 2 ^ k) hw hm hv

-- a field at the low end
pub put_low :
    (k w v : ℕ)
    → w < 2 ^ 32
    → 2 ^ k - 1 < 2 ^ 32
    → v < 2 ^ k
    → bit_or (bit_and w (not32 (2 ^ k - 1))) v ≡ field_put 0 k w v
unfolding field_put
put_low k w v hw hm hv =
    let e : (2 ^ k - 1) * 2 ^ 0 ≡ 2 ^ k - 1 = omega arith in
    let d : v * 2 ^ 0 ≡ v = omega arith in
    ap₂ (λ (a b : ℕ). bit_or (bit_and w (not32 a)) b) (sym e) (sym d)
    ∙ put_field 32 0 k w v hw (omega (arith, e)) hv

pub set_version_lem :
    (v : ℕ) (h : IpHeader)
    → IsWords h
    → InRange (to_version v)
    → (apply (to_version v) h).version_to_len ≡ field_put 4 4 h.version_to_len (v % 2 ^ 4)
unfolding apply InRange
set_version_lem v h ok r = put_masked 4 4 h.version_to_len v ok.first (omega arith) (omega arith)

pub set_ihl_lem :
    (v : ℕ) (h : IpHeader)
    → IsWords h
    → InRange (to_ihl v)
    → (apply (to_ihl v) h).version_to_len ≡ field_put 0 4 h.version_to_len (v % 2 ^ 4)
unfolding apply InRange
set_ihl_lem v h ok r =
    ap (λ (t : ℕ). bit_or (bit_and h.version_to_len (not32 (2 ^ 4 - 1))) t) (bit_and_mask 4 v)
    ∙ put_low 4 h.version_to_len (v % 2 ^ 4) ok.first (omega arith) (omega arith)

pub set_dscp_lem :
    (v : ℕ) (h : IpHeader)
    → IsWords h
    → InRange (to_dscp v)
    → (apply (to_dscp v) h).version_to_len ≡ field_put 10 6 h.version_to_len (v % 2 ^ 6)
unfolding apply InRange
set_dscp_lem v h ok r = put_masked 10 6 h.version_to_len v ok.first (omega arith) (omega arith)

pub set_ecn_lem :
    (v : ℕ) (h : IpHeader)
    → IsWords h
    → InRange (to_ecn v)
    → (apply (to_ecn v) h).version_to_len ≡ field_put 8 2 h.version_to_len (v % 2 ^ 2)
unfolding apply InRange
set_ecn_lem v h ok r = put_masked 8 2 h.version_to_len v ok.first (omega arith) (omega arith)

pub set_length_lem :
    (v : ℕ) (h : IpHeader)
    → IsWords h
    → InRange (to_length v)
    → (apply (to_length v) h).version_to_len ≡ field_put 16 16 h.version_to_len (swap16 v)
unfolding apply InRange field_put
set_length_lem v h ok r =
    put_field 32 16 16 h.version_to_len (swap16 v) ok.first (omega arith) (swap16-lt v r)

pub set_id_lem :
    (v : ℕ) (h : IpHeader)
    → IsWords h
    → InRange (to_id v)
    → (apply (to_id v) h).id_to_foffset ≡ field_put 0 16 h.id_to_foffset (swap16 v)
unfolding apply InRange
set_id_lem v h ok r = put_low 16 h.id_to_foffset (swap16 v) ok.second (omega arith) (swap16-lt v r)

pub set_flags_lem :
    (v : ℕ) (h : IpHeader)
    → IsWords h
    → InRange (to_flags v)
    → (apply (to_flags v) h).id_to_foffset ≡ field_put 21 3 h.id_to_foffset (v % 2 ^ 3)
unfolding apply InRange
set_flags_lem v h ok r = put_masked 21 3 h.id_to_foffset v ok.second (omega arith) (omega arith)

pub set_ttl_lem :
    (v : ℕ) (h : IpHeader)
    → IsWords h
    → InRange (to_ttl v)
    → (apply (to_ttl v) h).ttl_to_csum ≡ field_put 0 8 h.ttl_to_csum v
unfolding apply InRange
set_ttl_lem v h ok r = put_low 8 h.ttl_to_csum v ok.third (omega arith) (r)

pub set_protocol_lem :
    (v : ℕ) (h : IpHeader)
    → IsWords h
    → InRange (to_protocol v)
    → (apply (to_protocol v) h).ttl_to_csum ≡ field_put 8 8 h.ttl_to_csum v
unfolding apply InRange field_put
set_protocol_lem v h ok r = put_field 32 8 8 h.ttl_to_csum v ok.third (omega arith) (r)

pub set_csum_lem :
    (v : ℕ) (h : IpHeader)
    → IsWords h
    → InRange (to_csum v)
    → (apply (to_csum v) h).ttl_to_csum ≡ field_put 16 16 h.ttl_to_csum (swap16 v)
unfolding apply InRange field_put
set_csum_lem v h ok r =
    put_field 32 16 16 h.ttl_to_csum (swap16 v) ok.third (omega arith) (swap16-lt v r)
