-- ===== src/Packets/Bytes.antt =====
-- The memory that the pointers of framework/src/interface/packet.rs go into: a byte at each address.
use net_bricks.Prelude.{
  ℕ, zero, suc, ◌+◌, ◌-◌, ◌≤◌, ◌<◌, ◌≡◌, refl, ap, ap₂, ◌∙◌, List, [], ◌∷◌, ◌++◌, ◌&&◌, arith,
  length, get_or, get_or_ext, take, drop, ltb, leb, if◌then◌else◌,
}
use net_bricks.Prelude.Run.{Run, returns, panics}

abbrev pub Memory : Type 0
Memory = ℕ → ℕ

-- The `n` bytes from address `a` on.
unfoldable pub read : Memory → ℕ → ℕ → List ℕ
read mem a zero = []
read mem a (suc n) = mem a ∷ read mem (suc a) n

unfoldable pub write : Memory → ℕ → List ℕ → Memory
write mem a bytes i = if leb a i && ltb i (a + length bytes) then get_or bytes (i - a) 0 else mem i

-- Two ranges of `n` bytes that overlap are undefined behaviour: here a panic.
abbrev pub copy_nonoverlapping : Memory → ℕ → ℕ → ℕ → Run Memory
copy_nonoverlapping mem src dst n =
    if ltb src (dst + n) && ltb dst (src + n)
    then panics
    else returns (write mem dst (read mem src n))

pub copy_nonoverlapping_apart :
    (mem : Memory) (src dst n : ℕ)
    → src + n ≤ dst
    → copy_nonoverlapping mem src dst n ≡ returns (write mem dst (read mem src n))
copy_nonoverlapping_apart mem src dst n h = ground arith

pub length-read : (mem : Memory) (a n : ℕ) → length (read mem a n) ≡ n
unfolding read
length-read mem a zero = refl
length-read mem a (suc n) = ap suc (length-read mem (suc a) n)

pub read_ext :
    (mem mem' : Memory) (a n : ℕ)
    → ((i : ℕ) → a ≤ i → i < a + n → mem i ≡ mem' i)
    → read mem a n ≡ read mem' a n
unfolding read
read_ext mem mem' a zero h = refl
read_ext mem mem' a (suc n) h =
    ap₂ ◌∷◌ (h a (omega arith) (omega arith))
      (read_ext mem mem' (suc a) n (λ i l r. h i (omega arith) (omega arith)))

pub read-add : (mem : Memory) (a n k : ℕ) → read mem a (n + k) ≡ read mem a n ++ read mem (a + n) k
unfolding read
read-add mem a zero k = ap₂ (λ b c. read mem b c) (omega arith) (omega arith)
read-add mem a (suc n) k =
    let e : suc n + k ≡ suc (n + k) = omega arith in
    let f : suc a + n ≡ a + suc n = omega arith in
    ap (read mem a) e
    ∙ ap (λ t. mem a ∷ t)
        (read-add mem (suc a) n k ∙ ap (λ b. read mem (suc a) n ++ read mem b k) f)

pub read-write_before :
    (mem : Memory) (a n b : ℕ) (bytes : List ℕ)
    → a + n ≤ b
    → read (write mem b bytes) a n ≡ read mem a n
unfolding write
read-write_before mem a n b bytes h = read_ext (write mem b bytes) mem a n (λ i l r. ground arith)

pub read-write_after :
    (mem : Memory) (a n b : ℕ) (bytes : List ℕ)
    → b + length bytes ≤ a
    → read (write mem b bytes) a n ≡ read mem a n
unfolding write
read-write_after mem a n b bytes h = read_ext (write mem b bytes) mem a n (λ i l r. ground arith)

pub get_or-read : (mem : Memory) (a n i d : ℕ) → i < n → get_or (read mem a n) i d ≡ mem (a + i)
unfolding read
get_or-read mem a zero i d h = elim h [ ]
get_or-read mem a (suc n) zero d h = ap mem (omega arith)
get_or-read mem a (suc n) (suc i) d h =
    get_or-read mem (suc a) n i d (omega arith) ∙ ap mem (omega arith)

pub read-write_self :
    (mem : Memory) (a : ℕ) (bytes : List ℕ) → read (write mem a bytes) a (length bytes) ≡ bytes
unfolding write
read-write_self mem a bytes =
    let mem' : Memory = write mem a bytes in
    get_or_ext 0 (read mem' a (length bytes)) bytes (length-read mem' a (length bytes)) (λ i l.
      let inside : i < length bytes = omega (arith, length-read mem' a (length bytes)) in
      let back : a + i - a ≡ i = omega arith in
      get_or-read mem' a (length bytes) i 0 inside
      ∙ ground (arith, ap (λ k. get_or bytes k 0) back))

pub take-read : (mem : Memory) (a n k : ℕ) → n ≤ k → take n (read mem a k) ≡ read mem a n
unfolding read
take-read mem a zero k h = refl
take-read mem a (suc n) zero h = elim h [ ]
take-read mem a (suc n) (suc k) h = ap (λ t. mem a ∷ t) (take-read mem (suc a) n k (omega arith))

pub drop-read :
    (mem : Memory) (a n k : ℕ) → n ≤ k → drop n (read mem a k) ≡ read mem (a + n) (k - n)
unfolding read
drop-read mem a zero k h = ap₂ (read mem) (omega arith) (omega arith)
drop-read mem a (suc n) zero h = elim h [ ]
drop-read mem a (suc n) (suc k) h =
    drop-read mem (suc a) n k (omega arith) ∙ ap₂ (read mem) (omega arith) (omega arith)
