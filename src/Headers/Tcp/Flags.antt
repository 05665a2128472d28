-- ===== src/Headers/Tcp/Flags.antt =====
-- The flags of framework/src/headers/tcp.rs: each has its own bit.
use native.Mathlib.Nat.{one-le-pow}
use native.Mathlib.Decide.{dec_lt, ℕ_discrete}
use net_bricks.Prelude.{
  ℕ, zero, suc, ◌-◌, ◌*◌, ◌^◌, ◌<◌, ◌≡◌, ◌≢◌, refl, sym, ap, ◌∙◌, bit_and, bit_or, bit, Bool, true,
  false, not, not8, ◌==◌, if◌then◌else◌, arith, bit_and_field, bit-bit_or, bit-bit_and,
  bit-two_pow_self, bit-two_pow_other, bit-not,
}
use net_bricks.Headers.Tcp.{TcpHeader}
use net_bricks.Headers.Tcp

pub data Flag : Type 0 where
  cwr : Flag
  ece : Flag
  urg : Flag
  ack : Flag
  psh : Flag
  rst : Flag
  syn : Flag
  fin : Flag

-- The getter and the two setters of a flag.
unfoldable pub get : Flag → TcpHeader → Bool
get cwr h = Tcp.cwr_flag h
get ece h = Tcp.ece_flag h
get urg h = Tcp.urg_flag h
get ack h = Tcp.ack_flag h
get psh h = Tcp.psh_flag h
get rst h = Tcp.rst_flag h
get syn h = Tcp.syn_flag h
get fin h = Tcp.fin_flag h

pub put : Flag → Bool → TcpHeader → TcpHeader
put cwr true h = Tcp.set_cwr_flag h
put cwr false h = Tcp.unset_cwr_flag h
put ece true h = Tcp.set_ece_flag h
put ece false h = Tcp.unset_ece_flag h
put urg true h = Tcp.set_urg_flag h
put urg false h = Tcp.unset_urg_flag h
put ack true h = Tcp.set_ack_flag h
put ack false h = Tcp.unset_ack_flag h
put psh true h = Tcp.set_psh_flag h
put psh false h = Tcp.unset_psh_flag h
put rst true h = Tcp.set_rst_flag h
put rst false h = Tcp.unset_rst_flag h
put syn true h = Tcp.set_syn_flag h
put syn false h = Tcp.unset_syn_flag h
put fin true h = Tcp.set_fin_flag h
put fin false h = Tcp.unset_fin_flag h

-- The place of the flag's bit in the byte.
abbrev pub place : Flag → ℕ
place cwr = 7
place ece = 6
place urg = 5
place ack = 4
place psh = 3
place rst = 2
place syn = 1
place fin = 0

place-lt : (f : Flag) → place f < 8
place-lt cwr = omega arith
place-lt ece = omega arith
place-lt urg = omega arith
place-lt ack = omega arith
place-lt psh = omega arith
place-lt rst = omega arith
place-lt syn = omega arith
place-lt fin = omega arith

mask-lt : (f : Flag) → 2 ^ place f < 2 ^ 8
mask-lt fin = omega arith
mask-lt syn = omega arith
mask-lt rst = omega arith
mask-lt psh = omega arith
mask-lt ack = omega arith
mask-lt urg = omega arith
mask-lt ece = omega arith
mask-lt cwr = omega arith

get_lem : (f : Flag) (h : TcpHeader) → get f h ≡ not (bit_and h.flags (2 ^ place f) == 0)
unfolding get
get_lem cwr h = refl
get_lem ece h = refl
get_lem urg h = refl
get_lem ack h = refl
get_lem psh h = refl
get_lem rst h = refl
get_lem syn h = refl
get_lem fin h = refl

pub put_true_lem :
    (f : Flag) (h : TcpHeader) → put f true h ≡ record h { flags = bit_or h.flags (2 ^ place f) }
unfolding put
put_true_lem cwr h = refl
put_true_lem ece h = refl
put_true_lem urg h = refl
put_true_lem ack h = refl
put_true_lem psh h = refl
put_true_lem rst h = refl
put_true_lem syn h = refl
put_true_lem fin h = refl

pub put_false_lem :
    (f : Flag) (h : TcpHeader)
    → put f false h ≡ record h { flags = bit_and h.flags (not8 (2 ^ place f)) }
unfolding put
put_false_lem cwr h = refl
put_false_lem ece h = refl
put_false_lem urg h = refl
put_false_lem ack h = refl
put_false_lem psh h = refl
put_false_lem rst h = refl
put_false_lem syn h = refl
put_false_lem fin h = refl

flag_at : ℕ → Flag
flag_at zero = fin
flag_at (suc zero) = syn
flag_at (suc (suc zero)) = rst
flag_at (suc (suc (suc zero))) = psh
flag_at (suc (suc (suc (suc zero)))) = ack
flag_at (suc (suc (suc (suc (suc zero))))) = urg
flag_at (suc (suc (suc (suc (suc (suc zero)))))) = ece
flag_at (suc (suc (suc (suc (suc (suc (suc k))))))) = cwr

flag_at-place : (f : Flag) → flag_at (place f) ≡ f
unfolding flag_at
flag_at-place cwr = refl
flag_at-place ece = refl
flag_at-place urg = refl
flag_at-place ack = refl
flag_at-place psh = refl
flag_at-place rst = refl
flag_at-place syn = refl
flag_at-place fin = refl

place-injective : (f g : Flag) → place f ≡ place g → f ≡ g
place-injective f g e = sym (flag_at-place f) ∙ ap flag_at e ∙ flag_at-place g

-- The test of a masked byte is the bit.
masked_bit : (p w : ℕ) → not (bit_and w (2 ^ p) == 0) ≡ (bit p w == 1)
masked_bit p w =
    let pos = one-le-pow p 2 (omega arith) in
    let m : (2 ^ 1 - 1) * 2 ^ p ≡ 2 ^ p = omega arith in
    let e : bit_and w (2 ^ p) ≡ bit p w * 2 ^ p = ap (bit_and w) (sym m) ∙ bit_and_field p 1 w in
    elim (dec_lt 0 (bit p w)) [
      | yes set ↦
          let one : bit p w ≡ 1 = omega arith in
          let full : bit_and w (2 ^ p) ≡ 2 ^ p = e ∙ ap (λ (t : ℕ). t * 2 ^ p) one ∙ omega arith in
          ground arith
      | no clear ↦
          let null : bit p w ≡ 0 = omega arith in
          let none : bit_and w (2 ^ p) ≡ 0 = e ∙ ap (λ (t : ℕ). t * 2 ^ p) null ∙ omega arith in
          ground arith
    ]

get-bit : (g : Flag) (h : TcpHeader) → get g h ≡ (bit (place g) h.flags == 1)
get-bit g h = get_lem g h ∙ masked_bit (place g) h.flags

get-put_self : (f : Flag) (b : Bool) (h : TcpHeader) → get f (put f b h) ≡ b
get-put_self f true h =
    let e : bit (place f) (bit_or h.flags (2 ^ place f)) ≡ 1 =
      omega (arith, bit-bit_or (place f) h.flags (2 ^ place f), bit-two_pow_self (place f)) in
    ap (get f) (put_true_lem f h)
    ∙ get-bit f (record h { flags = bit_or h.flags (2 ^ place f) })
    ∙ rw e refl
get-put_self f false h =
    let e : bit (place f) (bit_and h.flags (not8 (2 ^ place f))) ≡ 0 = omega (
      arith,
      bit-bit_and (place f) h.flags (not8 (2 ^ place f)),
      bit-not (place f) 8 (2 ^ place f) (place-lt f) (mask-lt f),
      bit-two_pow_self (place f),
    ) in
    ap (get f) (put_false_lem f h)
    ∙ get-bit f (record h { flags = bit_and h.flags (not8 (2 ^ place f)) })
    ∙ rw e refl

get-put_other : (f g : Flag) (b : Bool) (h : TcpHeader) → f ≢ g → get g (put f b h) ≡ get g h
get-put_other f g true h ne =
    let apart : place g ≢ place f = λ e. ne (place-injective f g (sym e)) in
    let e : bit (place g) (bit_or h.flags (2 ^ place f)) ≡ bit (place g) h.flags = omega (
      arith,
      bit-bit_or (place g) h.flags (2 ^ place f),
      bit-two_pow_other (place g) (place f) apart,
    ) in
    ap (get g) (put_true_lem f h)
    ∙ get-bit g (record h { flags = bit_or h.flags (2 ^ place f) })
    ∙ ap (λ (t : ℕ). t == 1) e
    ∙ sym (get-bit g h)
get-put_other f g false h ne =
    let apart : place g ≢ place f = λ e. ne (place-injective f g (sym e)) in
    let e : bit (place g) (bit_and h.flags (not8 (2 ^ place f))) ≡ bit (place g) h.flags = omega (
      arith,
      bit-bit_and (place g) h.flags (not8 (2 ^ place f)),
      bit-not (place g) 8 (2 ^ place f) (place-lt g) (mask-lt f),
      bit-two_pow_other (place g) (place f) apart,
    ) in
    ap (get g) (put_false_lem f h)
    ∙ get-bit g (record h { flags = bit_and h.flags (not8 (2 ^ place f)) })
    ∙ ap (λ (t : ℕ). t == 1) e
    ∙ sym (get-bit g h)

-- After a flag is set or cleared, the getter of that flag gives the value, and the getter of each
-- of the other seven gives what it gave before.
pub get-put :
    (f g : Flag) (b : Bool) (h : TcpHeader)
    → get g (put f b h) ≡ (if place f == place g then b else get g h)
get-put f g b h = elim (ℕ_discrete (place f) (place g)) [
  | yes same ↦
      let t : (place f == place g) ≡ true = ground arith in
      rw t (ap (λ k. get k (put f b h)) (sym (place-injective f g same)) ∙ get-put_self f b h)
  | no apart ↦
      let t : (place f == place g) ≡ false = ground arith in
      rw t (get-put_other f g b h (λ e. apart (ap place e)))
]
