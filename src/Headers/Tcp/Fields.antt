-- ===== src/Headers/Tcp/Fields.antt =====
-- The getters of a TCP header (framework/src/headers/tcp.rs), the numeric fields and the nine flags:
-- what each setter does to all of them. The NS flag shares a byte with the data offset.
use mathlib.Core.Path.{fun_ext}
use net_bricks.Prelude.{
  ℕ, ◌+◌, ◌*◌, ◌/◌, ◌%◌, ◌^◌, ◌<◌, ◌≡◌, refl, sym, ap, ap₂, if◌then◌else◌, ◌∙◌, bit_and, bit_or,
  Bool, true, false, not8, ◌==◌, arith, bit_and_field, bit_and_mask, bit_and_not, bit_or_field,
  bit_or_step, bit_or-zero, swap16-swap16, swap32-swap32,
}
use net_bricks.Headers.Tcp.{TcpHeader}
use net_bricks.Headers.Tcp
use net_bricks.Headers.Tcp.Flags.{
  Flag, get, put, place, put_true_lem, put_false_lem, get-put, cwr, ece, urg, ack, psh, rst, syn,
  fin,
}

-- What the getters give.
pub record Fields : Type 0 where
  pub src_port : ℕ
  pub dst_port : ℕ
  pub seq_num : ℕ
  pub ack_num : ℕ
  pub data_offset : ℕ
  pub window_size : ℕ
  pub checksum : ℕ
  pub urgent : ℕ
  pub ns : Bool
  pub cwr : Bool
  pub ece : Bool
  pub urg : Bool
  pub ack : Bool
  pub psh : Bool
  pub rst : Bool
  pub syn : Bool
  pub fin : Bool

abbrev pub read : TcpHeader → Fields
read h = record {
  src_port = Tcp.src_port h;
  dst_port = Tcp.dst_port h;
  seq_num = Tcp.seq_num h;
  ack_num = Tcp.ack_num h;
  data_offset = Tcp.data_offset h;
  window_size = Tcp.window_size h;
  checksum = Tcp.checksum h;
  urgent = Tcp.urgent h;
  ns = Tcp.ns_flag h;
  cwr = Tcp.cwr_flag h;
  ece = Tcp.ece_flag h;
  urg = Tcp.urg_flag h;
  ack = Tcp.ack_flag h;
  psh = Tcp.psh_flag h;
  rst = Tcp.rst_flag h;
  syn = Tcp.syn_flag h;
  fin = Tcp.fin_flag h;
}

-- A setter's call, with its argument.
pub data Setter : Type 0 where
  to_src_port : ℕ → Setter
  to_dst_port : ℕ → Setter
  to_seq_num : ℕ → Setter
  to_ack_num : ℕ → Setter
  to_data_offset : ℕ → Setter
  to_window_size : ℕ → Setter
  to_checksum : ℕ → Setter
  to_urgent : ℕ → Setter
  to_ns : Bool → Setter
  to_flag : Flag → Bool → Setter

pub perform : Setter → TcpHeader → TcpHeader
perform (to_src_port v) h = Tcp.set_src_port v h
perform (to_dst_port v) h = Tcp.set_dst_port v h
perform (to_seq_num v) h = Tcp.set_seq_num v h
perform (to_ack_num v) h = Tcp.set_ack_num v h
perform (to_data_offset v) h = Tcp.set_data_offset v h
perform (to_window_size v) h = Tcp.set_window_size v h
perform (to_checksum v) h = Tcp.set_checksum v h
perform (to_urgent v) h = Tcp.set_urgent v h
perform (to_ns true) h = Tcp.set_ns h
perform (to_ns false) h = Tcp.unset_ns h
perform (to_flag f b) h = put f b h

-- The arguments are words of the setters' types.
unfoldable pub InRange : Setter → Type 0
InRange (to_src_port v) = v < 2 ^ 16
InRange (to_dst_port v) = v < 2 ^ 16
InRange (to_seq_num v) = v < 2 ^ 32
InRange (to_ack_num v) = v < 2 ^ 32
InRange (to_data_offset v) = v < 2 ^ 8
InRange (to_window_size v) = v < 2 ^ 16
InRange (to_checksum v) = v < 2 ^ 16
InRange (to_urgent v) = v < 2 ^ 16
InRange (to_ns b) = 0 < 1
InRange (to_flag f b) = 0 < 1

pub set_flag : Flag → Bool → Fields → Fields
set_flag cwr b f = record f { cwr = b }
set_flag ece b f = record f { ece = b }
set_flag urg b f = record f { urg = b }
set_flag ack b f = record f { ack = b }
set_flag psh b f = record f { psh = b }
set_flag rst b f = record f { rst = b }
set_flag syn b f = record f { syn = b }
set_flag fin b f = record f { fin = b }

-- The new fields; the data offset is cut to its four bits.
pub update : Setter → Fields → Fields
update (to_src_port v) f = record f { src_port = v }
update (to_dst_port v) f = record f { dst_port = v }
update (to_seq_num v) f = record f { seq_num = v }
update (to_ack_num v) f = record f { ack_num = v }
update (to_data_offset v) f = record f { data_offset = v % 2 ^ 4 }
update (to_window_size v) f = record f { window_size = v }
update (to_checksum v) f = record f { checksum = v }
update (to_urgent v) f = record f { urgent = v }
update (to_ns b) f = record f { ns = b }
update (to_flag flag b) f = set_flag flag b f

-- The getters of the shared byte are arithmetic.
data_offset_lem : (o : ℕ) → bit_and o 0xf0 / 2 ^ 4 ≡ o / 2 ^ 4 % 2 ^ 4
data_offset_lem o = omega (arith, bit_and_field 4 4 o)

ns_lem : (o : ℕ) → bit_and o 0x01 ≡ o % 2
ns_lem o = bit_and_mask 1 o

-- The shared byte after each of its setters.
set_data_offset_lem :
    (o v : ℕ) → bit_or (bit_and o 0x0f) (v * 2 ^ 4 % 2 ^ 8) ≡ v % 2 ^ 4 * 2 ^ 4 + o % 2 ^ 4
set_data_offset_lem o v =
    let cut : v * 2 ^ 4 % 2 ^ 8 ≡ v % 2 ^ 4 * 2 ^ 4 = omega arith in
    let low : bit_and o 0x0f ≡ 0 * 2 ^ 4 * 2 ^ 4 + o % 2 ^ 4 = omega (arith, bit_and_mask 4 o) in
    ap₂ bit_or low cut
    ∙ bit_or_field 4 4 0 (v % 2 ^ 4) (o % 2 ^ 4) (omega arith) (omega arith)
    ∙ omega arith

set_ns_lem : (o : ℕ) → bit_or o 1 ≡ o / 2 * 2 + 1
set_ns_lem o = omega (arith, bit_or_step o 1, bit_or-zero (o / 2))

unset_ns_lem : (o : ℕ) → o < 2 ^ 8 → bit_and o (not8 0x1) ≡ o / 2 * 2
unset_ns_lem o h = omega (arith, bit_and_not 8 o 1 h (omega arith), bit_and_mask 1 o)

-- The fields after the shared byte is replaced.
shared_byte :
    (h : TcpHeader) (o k : ℕ) (b : Bool)
    → o / 2 ^ 4 % 2 ^ 4 ≡ k
    → (o % 2 == 1) ≡ b
    → read (record h { offset_to_ns = o }) ≡ record (read h) { data_offset = k; ns = b }
shared_byte h o k b p q = rw (data_offset_lem o, ns_lem o, p, q) refl

abbrev with_flags : Fields → (Flag → Bool) → Fields
with_flags f flags = record f {
  cwr = flags cwr;
  ece = flags ece;
  urg = flags urg;
  ack = flags ack;
  psh = flags psh;
  rst = flags rst;
  syn = flags syn;
  fin = flags fin;
}

-- The fields after the byte of the flags is replaced.
flags_byte :
    (h h' : TcpHeader) (w : ℕ)
    → h' ≡ record h { flags = w }
    → read h' ≡ with_flags (read h) (λ g. get g h')
unfolding get
flags_byte h h' w e = ap read e ∙ ap (λ x. with_flags (read h) (λ g. get g x)) (sym e)

put_byte :
    (f : Flag) (b : Bool) (h : TcpHeader)
    → read (put f b h) ≡ with_flags (read h) (λ g. get g (put f b h))
put_byte f true h = flags_byte h (put f true h) _ (put_true_lem f h)
put_byte f false h = flags_byte h (put f false h) _ (put_false_lem f h)

one_flag :
    (f : Flag) (b : Bool) (h : TcpHeader)
    → with_flags (read h) (λ g. if place f == place g then b else get g h) ≡ set_flag f b (read h)
unfolding get set_flag
one_flag cwr b h = refl
one_flag ece b h = refl
one_flag urg b h = refl
one_flag ack b h = refl
one_flag psh b h = refl
one_flag rst b h = refl
one_flag syn b h = refl
one_flag fin b h = refl

read-put : (f : Flag) (b : Bool) (h : TcpHeader) → read (put f b h) ≡ set_flag f b (read h)
read-put f b h =
    put_byte f b h ∙ ap (with_flags (read h)) (fun_ext (λ g. get-put f g b h)) ∙ one_flag f b h

-- On a header whose shared byte is a byte, a setter with an argument of its type makes its getter
-- give the argument (the data offset its low four bits), and leaves what every other getter gives,
-- those of the nine flags among them. The NS flag shares a byte with the data offset, and the other
-- eight flags share one.
pub read-perform :
    (u : Setter) (h : TcpHeader)
    → h.offset_to_ns < 2 ^ 8
    → InRange u
    → read (perform u h) ≡ update u (read h)
unfolding perform InRange update
read-perform (to_src_port v) h ok r = rw (swap16-swap16 v r)
read-perform (to_dst_port v) h ok r = rw (swap16-swap16 v r)
read-perform (to_seq_num v) h ok r = rw (swap32-swap32 v r)
read-perform (to_ack_num v) h ok r = rw (swap32-swap32 v r)
read-perform (to_window_size v) h ok r = rw (swap16-swap16 v r)
read-perform (to_checksum v) h ok r = rw (swap16-swap16 v r)
read-perform (to_urgent v) h ok r = rw (swap16-swap16 v r)
read-perform (to_data_offset v) h ok r =
    let o = h.offset_to_ns in
    ap (λ t. read (record h { offset_to_ns = t })) (set_data_offset_lem o v)
    ∙ shared_byte h (v % 2 ^ 4 * 2 ^ 4 + o % 2 ^ 4) (v % 2 ^ 4) (Tcp.ns_flag h) (omega arith)
        (ap (λ (t : ℕ). t == 1) (omega (arith, ns_lem o)))
read-perform (to_ns true) h ok r =
    let o = h.offset_to_ns in
    ap (λ t. read (record h { offset_to_ns = t })) (set_ns_lem o)
    ∙ shared_byte h (o / 2 * 2 + 1) (Tcp.data_offset h) true (omega (arith, data_offset_lem o))
        (ground arith)
read-perform (to_ns false) h ok r =
    let o = h.offset_to_ns in
    ap (λ t. read (record h { offset_to_ns = t })) (unset_ns_lem o ok)
    ∙ shared_byte h (o / 2 * 2) (Tcp.data_offset h) false (omega (arith, data_offset_lem o))
        (ground arith)
read-perform (to_flag f b) h ok r = read-put f b h
