-- ===== src/Mpsc/Drain.antt =====
-- The dequeue of framework/src/queues/mpsc_mbuf_queue.rs hands out the oldest pointers of the queue.
use native.Mathlib.Nat.{mod-eq_of_lt, mod-eq-sub-mod, mod-lt, mod-add-mod}
use native.Mathlib.Decide.{dec_lt}
use net_bricks.Prelude.{
  ℕ, ◌+◌, ◌-◌, ◌%◌, ◌≤◌, ◌<◌, ◌≡◌, refl, sym, ap, ◌∙◌, List, ◌++◌, true, false, min, arith, length,
  get_or, take, drop, length-take, length-drop, length-append, write_slice, length-write_slice,
  get_or-write_slice, get_or-take, get_or-drop, get_or-append_left, get_or-append_right, add64, ltb,
  leb, if◌then◌else◌, get_or_ext,
}
use net_bricks.Prelude.Run.{returns, bind}
use net_bricks.RingBuffer.{RingBuffer, available}
use net_bricks.RingBuffer.Window.{
  IsValid, contents, length-contents, get_or-contents, size_pos, bit_and-mask,
}
use net_bricks.RingBuffer.Read.{moved, moved-IsValid, contents-moved}
use net_bricks.Mpsc.{dequeue_mbufs, dequeue}
use net_bricks.Mpsc.Copies.{load_range_lem}
use net_bricks.Mpsc.Fifo.{quiet}

module _ (vec : List ℕ) (size i n : ℕ) (mbufs : List ℕ) where
  -- The caller's slice after the two loops that go round the end at `size`.
  abbrev round : List ℕ
  round =
      let first : ℕ = size - i in
      write_slice first (write_slice 0 mbufs (take first (drop i vec)))
        (take (n - first) (drop 0 vec))

  length-round : length round ≡ length mbufs
  length-round =
      let first : ℕ = size - i in
      length-write_slice first (write_slice 0 mbufs (take first (drop i vec)))
        (take (n - first) (drop 0 vec))
      ∙ length-write_slice 0 mbufs (take first (drop i vec))

  get_or-round :
      (j : ℕ)
      → length vec ≡ size
      → i < size
      → size ≤ i + n
      → n ≤ size
      → j < length mbufs
      → get_or round j 0 ≡ (if ltb j n then get_or vec ((i + j) % size) 0 else get_or mbufs j 0)
  get_or-round j stored h past few k =
      let first : ℕ = size - i in
      let head = take first (drop i vec) in
      let rest = take (n - first) (drop 0 vec) in
      let out = write_slice 0 mbufs head in
      let one = get_or-write_slice 0 mbufs head j 0 k in
      let two =
        get_or-write_slice first out rest j 0 (omega (arith, length-write_slice 0 mbufs head)) in
      let len_head : length head ≡ first =
        omega (arith, length-take first (drop i vec), length-drop i vec) in
      let len_rest : length rest ≡ n - first =
        omega (arith, length-take (n - first) (drop 0 vec), length-drop 0 vec) in
      elim (dec_lt j first) [
        | yes early ↦
            let near : (i + j) % size ≡ i + j = mod-eq_of_lt (omega arith) in
            rw near (
              ground (
                arith,
                one,
                two,
                len_head,
                len_rest,
                get_or-take first (drop i vec) j 0,
                get_or-drop i vec j 0,
              ))
        | no late ↦ elim (dec_lt j n) [
          | yes read ↦
              let e : (i + j) % size ≡ j - first =
                mod-eq-sub-mod (omega arith) ∙ mod-eq_of_lt (omega arith) ∙ omega arith in
              rw e (
                ground (
                  arith,
                  one,
                  two,
                  len_head,
                  len_rest,
                  get_or-take (n - first) (drop 0 vec) (j - first) 0,
                  get_or-drop 0 vec (j - first) 0,
                ))
          | no left ↦ ground (arith, one, two, len_head, len_rest)
        ]
      ]

  -- The same after the one loop of a range that does not reach the end.
  abbrev straight : List ℕ
  straight = write_slice 0 mbufs (take n (drop i vec))

  get_or-straight :
      (j : ℕ)
      → length vec ≡ size
      → i + n < size
      → j < length mbufs
      → get_or straight j 0 ≡ (if ltb j n then get_or vec ((i + j) % size) 0 else get_or mbufs j 0)
  get_or-straight j stored inside k =
      let range = take n (drop i vec) in
      let one = get_or-write_slice 0 mbufs range j 0 k in
      let len : length range ≡ n = omega (arith, length-take n (drop i vec), length-drop i vec) in
      elim (dec_lt j n) [
        | yes early ↦
            let near : (i + j) % size ≡ i + j = mod-eq_of_lt (omega arith) in
            rw near
              (ground (arith, one, len, get_or-take n (drop i vec) j 0, get_or-drop i vec j 0))
        | no late ↦ ground (arith, one, len)
      ]

module _ {r : RingBuffer} (v : IsValid r) (n : ℕ) (mbufs : List ℕ) where
  abbrev handed : List ℕ
  handed = take n (contents r) ++ drop n mbufs

  length-handed : n ≤ available r → n ≤ length mbufs → length handed ≡ length mbufs
  length-handed h k = omega (
    arith,
    length-append (take n (contents r)) (drop n mbufs),
    length-take n (contents r),
    length-contents r,
    length-drop n mbufs,
  )

  get_or-handed :
      (j : ℕ)
      → n ≤ available r
      → get_or handed j 0
        ≡ (if ltb j n then get_or r.vec ((r.head % r.size + j) % r.size) 0 else get_or mbufs j 0)
  get_or-handed j h =
      let len : length (take n (contents r)) ≡ n =
        omega (arith, length-take n (contents r), length-contents r) in
      rw (mod-add-mod r.head r.size j) (elim (dec_lt j n) [
        | yes early ↦ ground (
          arith,
          get_or-append_left (take n (contents r)) (drop n mbufs) j 0,
          len,
          get_or-take n (contents r) j 0,
          get_or-contents r j,
        )
        | no late ↦
            let e : n + (j - n) ≡ j = omega arith in
            ground (
              arith,
              get_or-append_right (take n (contents r)) (drop n mbufs) j 0,
              len,
              e,
              get_or-drop n mbufs (j - n) 0,
            )
      ])

-- A dequeue that has reserved `n` pointers reads them in their order.
dequeue_mbufs_lem :
    {r : RingBuffer} (v : IsValid r) (n_producers reserved n : ℕ) (mbufs : List ℕ)
    → n ≤ available r
    → n ≤ length mbufs
    → dequeue_mbufs
        (record (quiet r n_producers) { consumer = record { head = reserved; tail = r.head } })
        r.head
        n
        mbufs
      ≡ returns (take n (contents r) ++ drop n mbufs)
unfolding dequeue_mbufs
dequeue_mbufs_lem {r} v n_producers reserved n mbufs few fits =
    let i : ℕ = r.head % r.size in
    let first : ℕ = r.size - i in
    let place = mod-lt r.head (size_pos v) in
    let same =
      λ (out : List ℕ) (l : length out ≡ length mbufs)
          (at : (j : ℕ)
            → j < length mbufs
            → get_or out j 0
              ≡ (if ltb j n then get_or r.vec ((i + j) % r.size) 0 else get_or mbufs j 0)).
        get_or_ext 0 out (handed v n mbufs) (l ∙ sym (length-handed v n mbufs few fits))
          λ j p. at j (omega (arith, l)) ∙ sym (get_or-handed v n mbufs j few) in
    elim (dec_lt (i + n) r.size) [
      | yes inside ↦
          let test : leb r.size (i + n) ≡ false = ground arith in
          rw
            (
              bit_and-mask v r.head,
              test,
              load_range_lem n i 0 r.vec mbufs (omega (arith, v.stored)) (omega arith),
            )
            (ap returns (
              same (straight r.vec r.size i n mbufs)
                (length-write_slice 0 mbufs (take n (drop i r.vec)))
                λ j k. get_or-straight r.vec r.size i n mbufs j v.stored inside k))
      | no past ↦
          let test : leb r.size (i + n) ≡ true = ground arith in
          let kept = length-write_slice 0 mbufs (take first (drop i r.vec)) in
          rw
            (
              bit_and-mask v r.head,
              test,
              load_range_lem first i 0 r.vec mbufs (omega (arith, v.stored)) (omega arith),
              load_range_lem (n - first) 0 first r.vec
                  (write_slice 0 mbufs (take first (drop i r.vec)))
                  (omega (arith, v.stored, v.room)) (omega (arith, kept)),
            )
            (ap returns (
              same (round r.vec r.size i n mbufs) (length-round r.vec r.size i n mbufs) λ j k.
                get_or-round r.vec r.size i n mbufs j v.stored place (omega arith)
                  (omega (arith, v.room)) k))
    ]

module _ {r : RingBuffer} (v : IsValid r) (n_producers : ℕ) where
  -- With no other call under way, a dequeue from a valid queue never panics. It copies the oldest
  -- pointers of the queue into the caller's slice, as many as there are and the slice has room
  -- for, leaves the rest of the slice, says how many, and drops them from the queue, which stays
  -- valid and of its size with no call under way.
  pub dequeue_lem :
      (mbufs : List ℕ)
      → let n = min (length mbufs) (length (contents r)) in
        (r' : RingBuffer) × (dequeue (quiet r n_producers) mbufs
          ≡ returns (quiet r' n_producers, take n (contents r) ++ drop n mbufs, n))
        × (r'.size ≡ r.size)
        × (contents r' ≡ drop n (contents r))
        × IsValid r'
  unfolding dequeue
  dequeue_lem mbufs =
      let n : ℕ = min (length mbufs) (available r) in
      let few : n ≤ available r = omega arith in
      rw (length-contents r) (elim (dec_lt 0 n) [
        | yes h ↦
            let test : ltb 0 n ≡ true = ground arith in
            (
              moved v n,
              rw test (
                  ap (λ m. bind m λ out. returns (quiet (moved v n) n_producers, out, n))
                    (dequeue_mbufs_lem v n_producers (add64 r.head n) n mbufs few (omega arith))),
              refl,
              contents-moved v n few,
              moved-IsValid v n few,
            )
        | no h ↦
            let e : n ≡ 0 = omega arith in
            (r, rw e refl, refl, ap (λ k. drop k (contents r)) (sym e), v)
      ])
