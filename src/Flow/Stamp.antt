-- ===== src/Flow/Stamp.antt =====
-- Writing a flow into a packet and reading it back (framework/src/utils/flow.rs).
use net_bricks.Prelude.{
  ℕ, ◌+◌, ◌-◌, ◌*◌, ◌/◌, ◌%◌, ◌^◌, ◌≤◌, ◌<◌, ◌≡◌, ◌⊎◌, inl, inr, refl, sym, ap, ap₂, ◌∙◌, List, [],
  ◌∷◌, true, bit_and, leb, length, get_or, get_elem?-eq-get_or, write_slice, get_or-write_slice,
  length-write_slice, arith,
}
use net_bricks.Prelude.Run.{returns}
use net_bricks.Flow.{
  Flow, read_u16, read_u32, write_u16, write_u32, ipv4_extract_flow, ipv4_stamp_flow,
}

-- A read within the bytes gives a number made of them.
word16 : List ℕ → ℕ → ℕ
word16 bytes i = get_or bytes i 0 * 2 ^ 8 + get_or bytes (i + 1) 0

read_u16_lem :
    (bytes : List ℕ) (i : ℕ) → i + 2 ≤ length bytes → read_u16 bytes i ≡ returns (word16 bytes i)
unfolding read_u16 word16
read_u16_lem bytes i h =
    rw
      (
        get_elem?-eq-get_or bytes i 0 (omega arith),
        get_elem?-eq-get_or bytes (i + 1) 0 (omega arith),
      )
      refl

read_u32_lem :
    (bytes : List ℕ) (i : ℕ)
    → i + 4 ≤ length bytes
    → read_u32 bytes i ≡ returns (word16 bytes i * 2 ^ 16 + word16 bytes (i + 2))
unfolding read_u32
read_u32_lem bytes i h =
    rw (read_u16_lem bytes i (omega arith), read_u16_lem bytes (i + 2) (omega arith)) refl

-- A write elsewhere does not change what is read.
get_or-apart :
    (o : ℕ) (bytes ys : List ℕ) (i : ℕ)
    → (i < o) ⊎ (o + length ys ≤ i)
    → i < length bytes
    → get_or (write_slice o bytes ys) i 0 ≡ get_or bytes i 0
get_or-apart o bytes ys i a h = ground (arith, get_or-write_slice o bytes ys i 0 h, a)

get_or-within :
    (o : ℕ) (bytes ys : List ℕ) (k : ℕ)
    → k < length ys
    → o + k < length bytes
    → get_or (write_slice o bytes ys) (o + k) 0 ≡ get_or ys k 0
get_or-within o bytes ys k a h =
    let e : o + k - o ≡ k = omega arith in
    let d = ap (λ (t : ℕ). get_or ys t 0) e in
    ground (arith, get_or-write_slice o bytes ys (o + k) 0 h, d)

word16-apart :
    (o : ℕ) (bytes ys : List ℕ) (i : ℕ)
    → (i + 2 ≤ o) ⊎ (o + length ys ≤ i)
    → i + 2 ≤ length bytes
    → word16 (write_slice o bytes ys) i ≡ word16 bytes i
unfolding word16
word16-apart o bytes ys i (inl a) h =
    ap₂ (λ (x y : ℕ). x * 2 ^ 8 + y) (get_or-apart o bytes ys i (inl (omega arith)) (omega arith))
      (get_or-apart o bytes ys (i + 1) (inl (omega arith)) (omega arith))
word16-apart o bytes ys i (inr a) h =
    ap₂ (λ (x y : ℕ). x * 2 ^ 8 + y) (get_or-apart o bytes ys i (inr (omega arith)) (omega arith))
      (get_or-apart o bytes ys (i + 1) (inr (omega arith)) (omega arith))

-- The bytes of a word, the highest first.
abbrev bytes16 : ℕ → List ℕ
bytes16 x = x / 2 ^ 8 % 2 ^ 8 ∷ x % 2 ^ 8 ∷ []

abbrev bytes32 : ℕ → List ℕ
bytes32 x = x / 2 ^ 24 % 2 ^ 8 ∷ x / 2 ^ 16 % 2 ^ 8 ∷ x / 2 ^ 8 % 2 ^ 8 ∷ x % 2 ^ 8 ∷ []

word16-bytes16 :
    (o : ℕ) (bytes : List ℕ) (x : ℕ)
    → x < 2 ^ 16
    → o + 2 ≤ length bytes
    → word16 (write_slice o bytes (bytes16 x)) o ≡ x
unfolding word16
word16-bytes16 o bytes x r h =
    let zeroth : get_or (write_slice o bytes (bytes16 x)) (o + 0) 0 ≡ x / 2 ^ 8 % 2 ^ 8 =
      get_or-within o bytes (bytes16 x) 0 (omega arith) (omega arith) in
    let here : o + 0 ≡ o = omega arith in
    let first = sym (ap (λ (t : ℕ). get_or (write_slice o bytes (bytes16 x)) t 0) here) ∙ zeroth in
    omega (arith, first, get_or-within o bytes (bytes16 x) 1 (omega arith) (omega arith))

word32-bytes32 :
    (o : ℕ) (bytes : List ℕ) (x : ℕ)
    → x < 2 ^ 32
    → o + 4 ≤ length bytes
    → (word16 (write_slice o bytes (bytes32 x)) o ≡ x / 2 ^ 16)
      × (word16 (write_slice o bytes (bytes32 x)) (o + 2) ≡ x % 2 ^ 16)
unfolding word16
word32-bytes32 o bytes x r h =
    let out = write_slice o bytes (bytes32 x) in
    let at = λ (k : ℕ) (p : k < 4). get_or-within o bytes (bytes32 x) k p (omega arith) in
    let here : o + 0 ≡ o = omega arith in
    let next : o + 2 + 1 ≡ o + 3 = omega arith in
    let first = sym (ap (λ (t : ℕ). get_or out t 0) here) ∙ at 0 (omega arith) in
    let last = ap (λ (t : ℕ). get_or out t 0) next ∙ at 3 (omega arith) in
    (omega (arith, first, at 1 (omega arith)), omega (arith, last, at 2 (omega arith)))

-- The place of the ports, behind the header.
abbrev pub port_start : List ℕ → ℕ
port_start bytes = bit_and (get_or bytes 0 0) 0xf * 4

-- The bytes after each of the writes.
module _ (ipv4_cksum : List ℕ → ℕ) (f : Flow) (bytes : List ℕ) where
  abbrev with_src : List ℕ
  with_src = write_slice 12 bytes (bytes32 f.src_ip)

  abbrev with_dst : List ℕ
  with_dst = write_slice 16 with_src (bytes32 f.dst_ip)

  abbrev with_src_port : List ℕ
  with_src_port = write_slice (port_start bytes) with_dst (bytes16 f.src_port)

  abbrev with_dst_port : List ℕ
  with_dst_port = write_slice (port_start bytes + 2) with_src_port (bytes16 f.dst_port)

  abbrev without_csum : List ℕ
  without_csum = write_slice 10 with_dst_port (bytes16 0)

  abbrev stamped : List ℕ
  stamped = write_slice 10 without_csum (bytes16 (ipv4_cksum without_csum))

  module _ (behind : 20 ≤ port_start bytes) (long : port_start bytes + 4 ≤ length bytes) where
    l1 : length with_src ≡ length bytes
    l1 = length-write_slice 12 bytes (bytes32 f.src_ip)

    l2 : length with_dst ≡ length bytes
    l2 = length-write_slice 16 with_src (bytes32 f.dst_ip) ∙ l1

    l3 : length with_src_port ≡ length bytes
    l3 = length-write_slice (port_start bytes) with_dst (bytes16 f.src_port) ∙ l2

    l4 : length with_dst_port ≡ length bytes
    l4 = length-write_slice (port_start bytes + 2) with_src_port (bytes16 f.dst_port) ∙ l3

    l5 : length without_csum ≡ length bytes
    l5 = length-write_slice 10 with_dst_port (bytes16 0) ∙ l4

    l6 : length stamped ≡ length bytes
    l6 = length-write_slice 10 without_csum (bytes16 (ipv4_cksum without_csum)) ∙ l5

    stamp-stamped : ipv4_stamp_flow ipv4_cksum f bytes ≡ returns stamped
    unfolding ipv4_stamp_flow write_u16 write_u32
    stamp-stamped =
        let p = port_start bytes in
        let t1 : leb (12 + 4) (length bytes) ≡ true = ground arith in
        let t2 : leb (16 + 4) (length with_src) ≡ true = ground (arith, l1) in
        let t3 : leb (p + 2) (length with_dst) ≡ true = ground (arith, l2) in
        let t4 : leb (p + 2 + 2) (length with_src_port) ≡ true = ground (arith, l3) in
        let t5 : leb (10 + 2) (length with_dst_port) ≡ true = ground (arith, l4) in
        let t6 : leb (10 + 2) (length without_csum) ≡ true = ground (arith, l5) in
        rw (get_elem?-eq-get_or bytes 0 0 (omega arith), t1, t2, t3, t4, t5, t6) refl

    head_kept : (i : ℕ) → i < 10 → get_or stamped i 0 ≡ get_or bytes i 0
    head_kept i h =
        get_or-apart 10 without_csum (bytes16 (ipv4_cksum without_csum)) i (inl h)
          (omega (arith, l5))
        ∙ get_or-apart 10 with_dst_port (bytes16 0) i (inl h) (omega (arith, l4))
        ∙ get_or-apart (port_start bytes + 2) with_src_port (bytes16 f.dst_port) i
            (inl (omega arith)) (omega (arith, l3))
        ∙ get_or-apart (port_start bytes) with_dst (bytes16 f.src_port) i (inl (omega arith))
            (omega (arith, l2))
        ∙ get_or-apart 16 with_src (bytes32 f.dst_ip) i (inl (omega arith)) (omega (arith, l1))
        ∙ get_or-apart 12 bytes (bytes32 f.src_ip) i (inl (omega arith)) (omega arith)

    past_csum : (i : ℕ) → 12 ≤ i → i + 2 ≤ length bytes → word16 stamped i ≡ word16 with_dst_port i
    past_csum i h k =
        word16-apart 10 without_csum (bytes16 (ipv4_cksum without_csum)) i (inr h)
          (omega (arith, l5))
        ∙ word16-apart 10 with_dst_port (bytes16 0) i (inr h) (omega (arith, l4))

    past_ports : (i : ℕ) → 12 ≤ i → i + 2 ≤ 20 → word16 stamped i ≡ word16 with_dst i
    past_ports i h k =
        past_csum i h (omega arith)
        ∙ word16-apart (port_start bytes + 2) with_src_port (bytes16 f.dst_port) i
            (inl (omega arith)) (omega (arith, l3))
        ∙ word16-apart (port_start bytes) with_dst (bytes16 f.src_port) i (inl (omega arith))
            (omega (arith, l2))

    past_dst : (i : ℕ) → 12 ≤ i → i + 2 ≤ 16 → word16 stamped i ≡ word16 with_src i
    past_dst i h k =
        past_ports i h (omega arith)
        ∙ word16-apart 16 with_src (bytes32 f.dst_ip) i (inl (omega arith)) (omega (arith, l1))

    -- If the header's length is at least five words, the bytes reach past the ports, and the flow's
    -- fields are of their widths, stamping a flow returns, and extracting the flow of the result
    -- gives the same addresses and ports, with the protocol that the packet had.
    pub extract-stamp :
        f.src_ip < 2 ^ 32
        → f.dst_ip < 2 ^ 32
        → f.src_port < 2 ^ 16
        → f.dst_port < 2 ^ 16
        → (bytes' : List ℕ) × (ipv4_stamp_flow ipv4_cksum f bytes ≡ returns bytes')
          × (ipv4_extract_flow bytes' ≡ returns (record f { proto = get_or bytes 9 0 }))
    unfolding ipv4_extract_flow
    extract-stamp a b c d =
        let p = port_start bytes in
        let src = word32-bytes32 12 bytes f.src_ip a (omega arith) in
        let dst = word32-bytes32 16 with_src f.dst_ip b (omega (arith, l1)) in
        let src_ip : word16 stamped 12 * 2 ^ 16 + word16 stamped (12 + 2) ≡ f.src_ip = omega (
          arith,
          past_dst 12 (omega arith) (omega arith),
          past_dst 14 (omega arith) (omega arith),
          src,
        ) in
        let dst_ip : word16 stamped 16 * 2 ^ 16 + word16 stamped (16 + 2) ≡ f.dst_ip = omega (
          arith,
          past_ports 16 (omega arith) (omega arith),
          past_ports 18 (omega arith) (omega arith),
          dst,
        ) in
        let src_port : word16 stamped p ≡ f.src_port =
          past_csum p (omega arith) (omega arith)
          ∙ word16-apart (p + 2) with_src_port (bytes16 f.dst_port) p (inl (omega arith))
              (omega (arith, l3))
          ∙ word16-bytes16 p with_dst f.src_port c (omega (arith, l2)) in
        let dst_port : word16 stamped (p + 2) ≡ f.dst_port =
          past_csum (p + 2) (omega arith) (omega arith)
          ∙ word16-bytes16 (p + 2) with_src_port f.dst_port d (omega (arith, l3)) in
        (
          stamped,
          stamp-stamped,
          rw
              (
                get_elem?-eq-get_or stamped 0 0 (omega (arith, l6)),
                head_kept 0 (omega arith),
                get_elem?-eq-get_or stamped 9 0 (omega (arith, l6)),
                head_kept 9 (omega arith),
                read_u32_lem stamped 12 (omega (arith, l6)),
                read_u32_lem stamped 16 (omega (arith, l6)),
                read_u16_lem stamped p (omega (arith, l6)),
                read_u16_lem stamped (p + 2) (omega (arith, l6)),
                src_ip,
                dst_ip,
                src_port,
                dst_port,
              )
              refl,
        )
