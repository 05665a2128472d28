-- ===== src/Headers/Ip/Update.antt =====
-- Every setter of framework/src/headers/ip.rs updates the header's fields as it says.
use net_bricks.Prelude.{
  ℕ, ◌/◌, ◌%◌, ◌^◌, ◌<◌, ◌≡◌, refl, sym, ap, ◌∙◌, bit_and, bit_or, swap16, swap32, swap16-lt,
  swap32-lt, swap16-swap16, swap32-swap32, not32, arith, swap32_lem,
}
use net_bricks.Headers.Ip.{IpHeader}
use net_bricks.Headers.Ip.Fields.{
  IsWords, read, Setter, apply, InRange, update, view, view_of, read_lem, to_version, to_ihl,
  to_dscp, to_ecn, to_length, to_id, to_flags, to_fragment_offset, to_ttl, to_protocol, to_csum,
  to_src, to_dst,
}
use net_bricks.Headers.Ip.Setters.{
  field_put, put_low, set_version_lem, set_ihl_lem, set_dscp_lem, set_ecn_lem, set_length_lem,
  set_id_lem, set_flags_lem, set_ttl_lem, set_protocol_lem, set_csum_lem,
}

-- The fields of a word that was set, given one by one.
first_word :
    (w x y s d v i q e l : ℕ)
    → w / 2 ^ 4 % 2 ^ 4 ≡ v
    → w % 2 ^ 4 ≡ i
    → w / 2 ^ 10 % 2 ^ 6 ≡ q
    → w / 2 ^ 8 % 2 ^ 2 ≡ e
    → swap16 (w / 2 ^ 16) ≡ l
    → view w x y s d
      ≡ record (view w x y s d) { version = v; ihl = i; dscp = q; ecn = e; length = l }
unfolding view
first_word w x y s d v i q e l a b c f g = rw (a, b, c, f, g) refl

second_word :
    (w x y s d i f o : ℕ)
    → swap16 (x % 2 ^ 16) ≡ i
    → x / 2 ^ 21 % 2 ^ 3 ≡ f
    → swap32 x % 2 ^ 13 ≡ o
    → view w x y s d ≡ record (view w x y s d) { id = i; flags = f; fragment_offset = o }
unfolding view
second_word w x y s d i f o a b c = rw (a, b, c) refl

third_word :
    (w x y s d t p c : ℕ)
    → y % 2 ^ 8 ≡ t
    → y / 2 ^ 8 % 2 ^ 8 ≡ p
    → y / 2 ^ 16 ≡ c
    → view w x y s d ≡ record (view w x y s d) { ttl = t; protocol = p; csum = c }
unfolding view
third_word w x y s d t p c a b e = rw (a, b, e) refl

view-version :
    (v : ℕ) (h : IpHeader)
    → IsWords h
    → InRange (to_version v)
    → view_of (apply (to_version v) h) ≡ update (to_version v) (view_of h)
unfolding apply InRange update view view_of field_put
view-version v h ok r =
    ap (λ t. view t h.id_to_foffset h.ttl_to_csum h.src_ip h.dst_ip) (set_version_lem v h ok r)
    ∙ first_word (field_put 4 4 h.version_to_len (v % 2 ^ 4)) h.id_to_foffset h.ttl_to_csum h.src_ip
        h.dst_ip (v % 2 ^ 4) (h.version_to_len % 2 ^ 4) (h.version_to_len / 2 ^ 10 % 2 ^ 6)
        (h.version_to_len / 2 ^ 8 % 2 ^ 2) (swap16 (h.version_to_len / 2 ^ 16)) (omega (arith))
        (omega (arith)) (omega (arith)) (omega (arith)) (ap swap16 (omega (arith)))

view-ihl :
    (v : ℕ) (h : IpHeader)
    → IsWords h
    → InRange (to_ihl v)
    → view_of (apply (to_ihl v) h) ≡ update (to_ihl v) (view_of h)
unfolding apply InRange update view view_of field_put
view-ihl v h ok r =
    ap (λ t. view t h.id_to_foffset h.ttl_to_csum h.src_ip h.dst_ip) (set_ihl_lem v h ok r)
    ∙ first_word (field_put 0 4 h.version_to_len (v % 2 ^ 4)) h.id_to_foffset h.ttl_to_csum h.src_ip
        h.dst_ip (h.version_to_len / 2 ^ 4 % 2 ^ 4) (v % 2 ^ 4) (h.version_to_len / 2 ^ 10 % 2 ^ 6)
        (h.version_to_len / 2 ^ 8 % 2 ^ 2) (swap16 (h.version_to_len / 2 ^ 16)) (omega (arith))
        (omega (arith)) (omega (arith)) (omega (arith)) (ap swap16 (omega (arith)))

view-dscp :
    (v : ℕ) (h : IpHeader)
    → IsWords h
    → InRange (to_dscp v)
    → view_of (apply (to_dscp v) h) ≡ update (to_dscp v) (view_of h)
unfolding apply InRange update view view_of field_put
view-dscp v h ok r =
    ap (λ t. view t h.id_to_foffset h.ttl_to_csum h.src_ip h.dst_ip) (set_dscp_lem v h ok r)
    ∙ first_word (field_put 10 6 h.version_to_len (v % 2 ^ 6)) h.id_to_foffset h.ttl_to_csum
        h.src_ip h.dst_ip (h.version_to_len / 2 ^ 4 % 2 ^ 4) (h.version_to_len % 2 ^ 4) (v % 2 ^ 6)
        (h.version_to_len / 2 ^ 8 % 2 ^ 2) (swap16 (h.version_to_len / 2 ^ 16)) (omega (arith))
        (omega (arith)) (omega (arith)) (omega (arith)) (ap swap16 (omega (arith)))

view-ecn :
    (v : ℕ) (h : IpHeader)
    → IsWords h
    → InRange (to_ecn v)
    → view_of (apply (to_ecn v) h) ≡ update (to_ecn v) (view_of h)
unfolding apply InRange update view view_of field_put
view-ecn v h ok r =
    ap (λ t. view t h.id_to_foffset h.ttl_to_csum h.src_ip h.dst_ip) (set_ecn_lem v h ok r)
    ∙ first_word (field_put 8 2 h.version_to_len (v % 2 ^ 2)) h.id_to_foffset h.ttl_to_csum h.src_ip
        h.dst_ip (h.version_to_len / 2 ^ 4 % 2 ^ 4) (h.version_to_len % 2 ^ 4)
        (h.version_to_len / 2 ^ 10 % 2 ^ 6) (v % 2 ^ 2) (swap16 (h.version_to_len / 2 ^ 16))
        (omega (arith)) (omega (arith)) (omega (arith)) (omega (arith)) (ap swap16 (omega (arith)))

view-length :
    (v : ℕ) (h : IpHeader)
    → IsWords h
    → InRange (to_length v)
    → view_of (apply (to_length v) h) ≡ update (to_length v) (view_of h)
unfolding apply InRange update view view_of field_put
view-length v h ok r =
    ap (λ t. view t h.id_to_foffset h.ttl_to_csum h.src_ip h.dst_ip) (set_length_lem v h ok r)
    ∙ first_word (field_put 16 16 h.version_to_len (swap16 v)) h.id_to_foffset h.ttl_to_csum
        h.src_ip h.dst_ip (h.version_to_len / 2 ^ 4 % 2 ^ 4) (h.version_to_len % 2 ^ 4)
        (h.version_to_len / 2 ^ 10 % 2 ^ 6) (h.version_to_len / 2 ^ 8 % 2 ^ 2) (v)
        (omega (arith, swap16-lt v r)) (omega (arith, swap16-lt v r)) (omega (arith, swap16-lt v r))
        (omega (arith, swap16-lt v r))
        (ap swap16 (omega (arith, swap16-lt v r)) ∙ swap16-swap16 v r)

view-id :
    (v : ℕ) (h : IpHeader)
    → IsWords h
    → InRange (to_id v)
    → view_of (apply (to_id v) h) ≡ update (to_id v) (view_of h)
unfolding apply InRange update view view_of field_put
view-id v h ok r =
    ap (λ t. view h.version_to_len t h.ttl_to_csum h.src_ip h.dst_ip) (set_id_lem v h ok r)
    ∙ second_word h.version_to_len (field_put 0 16 h.id_to_foffset (swap16 v)) h.ttl_to_csum
        h.src_ip h.dst_ip (v) (h.id_to_foffset / 2 ^ 21 % 2 ^ 3) (swap32 h.id_to_foffset % 2 ^ 13)
        (ap swap16 (omega (arith, swap16-lt v r)) ∙ swap16-swap16 v r)
        (omega (arith, swap16-lt v r))
        (omega (
          arith,
          swap32_lem h.id_to_foffset,
          swap32_lem (field_put 0 16 h.id_to_foffset (swap16 v)),
          ok.second,
          swap16-lt v r,
        ))

view-flags :
    (v : ℕ) (h : IpHeader)
    → IsWords h
    → InRange (to_flags v)
    → view_of (apply (to_flags v) h) ≡ update (to_flags v) (view_of h)
unfolding apply InRange update view view_of field_put
view-flags v h ok r =
    ap (λ t. view h.version_to_len t h.ttl_to_csum h.src_ip h.dst_ip) (set_flags_lem v h ok r)
    ∙ second_word h.version_to_len (field_put 21 3 h.id_to_foffset (v % 2 ^ 3)) h.ttl_to_csum
        h.src_ip h.dst_ip (swap16 (h.id_to_foffset % 2 ^ 16)) (v % 2 ^ 3)
        (swap32 h.id_to_foffset % 2 ^ 13) (ap swap16 (omega (arith))) (omega (arith))
        (omega (
          arith,
          swap32_lem h.id_to_foffset,
          swap32_lem (field_put 21 3 h.id_to_foffset (v % 2 ^ 3)),
          ok.second,
        ))

view-ttl :
    (v : ℕ) (h : IpHeader)
    → IsWords h
    → InRange (to_ttl v)
    → view_of (apply (to_ttl v) h) ≡ update (to_ttl v) (view_of h)
unfolding apply InRange update view view_of field_put
view-ttl v h ok r =
    ap (λ t. view h.version_to_len h.id_to_foffset t h.src_ip h.dst_ip) (set_ttl_lem v h ok r)
    ∙ third_word h.version_to_len h.id_to_foffset (field_put 0 8 h.ttl_to_csum v) h.src_ip h.dst_ip
        (v) (h.ttl_to_csum / 2 ^ 8 % 2 ^ 8) (h.ttl_to_csum / 2 ^ 16) (omega (arith)) (omega (arith))
        (omega (arith))

view-protocol :
    (v : ℕ) (h : IpHeader)
    → IsWords h
    → InRange (to_protocol v)
    → view_of (apply (to_protocol v) h) ≡ update (to_protocol v) (view_of h)
unfolding apply InRange update view view_of field_put
view-protocol v h ok r =
    ap (λ t. view h.version_to_len h.id_to_foffset t h.src_ip h.dst_ip) (set_protocol_lem v h ok r)
    ∙ third_word h.version_to_len h.id_to_foffset (field_put 8 8 h.ttl_to_csum v) h.src_ip h.dst_ip
        (h.ttl_to_csum % 2 ^ 8) (v) (h.ttl_to_csum / 2 ^ 16) (omega (arith)) (omega (arith))
        (omega (arith))

view-csum :
    (v : ℕ) (h : IpHeader)
    → IsWords h
    → InRange (to_csum v)
    → view_of (apply (to_csum v) h) ≡ update (to_csum v) (view_of h)
unfolding apply InRange update view view_of field_put
view-csum v h ok r =
    ap (λ t. view h.version_to_len h.id_to_foffset t h.src_ip h.dst_ip) (set_csum_lem v h ok r)
    ∙ third_word h.version_to_len h.id_to_foffset (field_put 16 16 h.ttl_to_csum (swap16 v))
        h.src_ip h.dst_ip (h.ttl_to_csum % 2 ^ 8) (h.ttl_to_csum / 2 ^ 8 % 2 ^ 8) (swap16 v)
        (omega (arith, swap16-lt v r)) (omega (arith, swap16-lt v r)) (omega (arith, swap16-lt v r))

view-fragment_offset :
    (v : ℕ) (h : IpHeader)
    → IsWords h
    → InRange (to_fragment_offset v)
    → (IsWords (apply (to_fragment_offset v) h))
      × (view_of (apply (to_fragment_offset v) h) ≡ update (to_fragment_offset v) (view_of h))
unfolding apply InRange update view view_of field_put
view-fragment_offset v h ok r =
    let x = h.id_to_foffset in
    let z = field_put 0 13 (swap32 x) v in
    let put : bit_or (bit_and (swap32 x) (not32 0x1fff)) v ≡ z =
      put_low 13 (swap32 x) v (swap32-lt x ok.second) (omega arith) r in
    let small : z < 2 ^ 32 = omega (arith, swap32-lt x ok.second) in
    (
      record {
        first = ok.first;
        second = rw put (swap32-lt z small);
        third = ok.third;
        source = ok.source;
        dest = ok.dest;
      },
      ap (λ t. view h.version_to_len (swap32 t) h.ttl_to_csum h.src_ip h.dst_ip) put
          ∙ second_word h.version_to_len (swap32 z) h.ttl_to_csum h.src_ip h.dst_ip
              (swap16 (x % 2 ^ 16)) (x / 2 ^ 21 % 2 ^ 3) v
              (ap swap16 (omega (arith, swap32_lem z, swap32_lem x, small, ok.second)))
              (omega (arith, swap32_lem z, swap32_lem x, small, ok.second))
              (ap (λ (t : ℕ). t % 2 ^ 13) (swap32-swap32 z small) ∙ omega arith),
    )

IsWords-first :
    (h : IpHeader) (w : ℕ) → IsWords h → w < 2 ^ 32 → IsWords (record h { version_to_len = w })
IsWords-first h w ok b = record {
  first = b;
  second = ok.second;
  third = ok.third;
  source = ok.source;
  dest = ok.dest;
}

IsWords-second :
    (h : IpHeader) (x : ℕ) → IsWords h → x < 2 ^ 32 → IsWords (record h { id_to_foffset = x })
IsWords-second h w ok b = record {
  first = ok.first;
  second = b;
  third = ok.third;
  source = ok.source;
  dest = ok.dest;
}

IsWords-third :
    (h : IpHeader) (y : ℕ) → IsWords h → y < 2 ^ 32 → IsWords (record h { ttl_to_csum = y })
IsWords-third h w ok b = record {
  first = ok.first;
  second = ok.second;
  third = b;
  source = ok.source;
  dest = ok.dest;
}

apply-IsWords : (u : Setter) (h : IpHeader) → IsWords h → InRange u → IsWords (apply u h)
unfolding apply InRange field_put
apply-IsWords (to_version v) h ok r =
    IsWords-first h (apply (to_version v) h).version_to_len ok
      (omega (arith, set_version_lem v h ok r, ok.first))
apply-IsWords (to_ihl v) h ok r =
    IsWords-first h (apply (to_ihl v) h).version_to_len ok
      (omega (arith, set_ihl_lem v h ok r, ok.first))
apply-IsWords (to_dscp v) h ok r =
    IsWords-first h (apply (to_dscp v) h).version_to_len ok
      (omega (arith, set_dscp_lem v h ok r, ok.first))
apply-IsWords (to_ecn v) h ok r =
    IsWords-first h (apply (to_ecn v) h).version_to_len ok
      (omega (arith, set_ecn_lem v h ok r, ok.first))
apply-IsWords (to_length v) h ok r =
    IsWords-first h (apply (to_length v) h).version_to_len ok
      (omega (arith, set_length_lem v h ok r, ok.first, swap16-lt v r))
apply-IsWords (to_id v) h ok r =
    IsWords-second h (apply (to_id v) h).id_to_foffset ok
      (omega (arith, set_id_lem v h ok r, ok.second, swap16-lt v r))
apply-IsWords (to_flags v) h ok r =
    IsWords-second h (apply (to_flags v) h).id_to_foffset ok
      (omega (arith, set_flags_lem v h ok r, ok.second))
apply-IsWords (to_ttl v) h ok r =
    IsWords-third h (apply (to_ttl v) h).ttl_to_csum ok
      (omega (arith, set_ttl_lem v h ok r, ok.third))
apply-IsWords (to_protocol v) h ok r =
    IsWords-third h (apply (to_protocol v) h).ttl_to_csum ok
      (omega (arith, set_protocol_lem v h ok r, ok.third))
apply-IsWords (to_csum v) h ok r =
    IsWords-third h (apply (to_csum v) h).ttl_to_csum ok
      (omega (arith, set_csum_lem v h ok r, ok.third, swap16-lt v r))
apply-IsWords (to_fragment_offset v) h ok r = (view-fragment_offset v h ok r).0
apply-IsWords (to_src v) h ok r = record {
  first = ok.first;
  second = ok.second;
  third = ok.third;
  source = swap32-lt v r;
  dest = ok.dest;
}
apply-IsWords (to_dst v) h ok r = record {
  first = ok.first;
  second = ok.second;
  third = ok.third;
  source = ok.source;
  dest = swap32-lt v r;
}

view-apply :
    (u : Setter) (h : IpHeader) → IsWords h → InRange u → view_of (apply u h) ≡ update u (view_of h)
unfolding apply InRange update view view_of
view-apply (to_version v) h ok r = view-version v h ok r
view-apply (to_ihl v) h ok r = view-ihl v h ok r
view-apply (to_dscp v) h ok r = view-dscp v h ok r
view-apply (to_ecn v) h ok r = view-ecn v h ok r
view-apply (to_length v) h ok r = view-length v h ok r
view-apply (to_id v) h ok r = view-id v h ok r
view-apply (to_flags v) h ok r = view-flags v h ok r
view-apply (to_ttl v) h ok r = view-ttl v h ok r
view-apply (to_protocol v) h ok r = view-protocol v h ok r
view-apply (to_csum v) h ok r = view-csum v h ok r
view-apply (to_fragment_offset v) h ok r = (view-fragment_offset v h ok r).1
view-apply (to_src v) h ok r = rw (swap32-swap32 v r)
view-apply (to_dst v) h ok r = rw (swap32-swap32 v r)

-- On a header of 32-bit words, a setter with an argument in its range keeps the words within 32
-- bits; then the getters (and the 13 low bits that are the fragment offset) give the setter's
-- argument, cut to the field's width, for its field, and for every other field what they gave
-- before. The checksum is read back with its bytes swapped.
pub read-apply :
    (u : Setter) (h : IpHeader)
    → IsWords h
    → InRange u
    → IsWords (apply u h) × (read (apply u h) ≡ update u (read h))
read-apply u h ok r =
    let ok' = apply-IsWords u h ok r in
    (ok', read_lem (apply u h) ok' ∙ view-apply u h ok r ∙ sym (ap (update u) (read_lem h ok)))
