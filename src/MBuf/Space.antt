-- ===== src/MBuf/Space.antt =====
-- The space of a packet buffer (framework/src/native/zcsi/mbuf.rs): how the data, the headroom
-- before them and the tailroom behind them change.
use native.Mathlib.Decide.{dec_lt}
use net_bricks.Prelude.{
  ℕ, ◌+◌, ◌-◌, ◌%◌, ◌^◌, ◌≤◌, ◌<◌, ◌≡◌, refl, ap, ◌∙◌, true, false, ltb, add32, sub32,
  if◌then◌else◌, arith,
}
use net_bricks.MBuf.{
  MBuf, add16, sub16, pkt_headroom, pkt_tailroom, add_data_beginning, add_data_end,
  remove_data_beginning, remove_data_end,
}

-- A buffer of one segment whose data lie within it.
pub record IsValid (m : MBuf) : Type 0 where
  pub within : m.data_off + m.data_len ≤ m.buf_len
  pub short : m.buf_len < 2 ^ 16
  pub single : m.pkt_len ≡ m.data_len

-- The buffer's layout, in bytes: before the data, the data, and after them.
pub record Layout : Type 0 where
  pub headroom : ℕ
  pub filled : ℕ
  pub tailroom : ℕ

abbrev pub layout : MBuf → Layout
layout m = record { headroom = pkt_headroom m; filled = m.data_len; tailroom = pkt_tailroom m }

pub data Resize : Type 0 where
  add_beginning : Resize
  add_end : Resize
  remove_beginning : Resize
  remove_end : Resize

pub resize : Resize → MBuf → ℕ → MBuf × ℕ
resize add_beginning m len = add_data_beginning m len
resize add_end m len = add_data_end m len
resize remove_beginning m len = remove_data_beginning m len
resize remove_end m len = remove_data_end m len

-- Bytes move between the data and the room at one of the ends, if there are enough.
pub move : Resize → Layout → ℕ → Layout
move add_beginning l n = record l { headroom = l.headroom - n; filled = l.filled + n }
move add_end l n = record l { filled = l.filled + n; tailroom = l.tailroom - n }
move remove_beginning l n = record l { headroom = l.headroom + n; filled = l.filled - n }
move remove_end l n = record l { filled = l.filled - n; tailroom = l.tailroom + n }

pub room : Resize → Layout → ℕ
room add_beginning l = l.headroom
room add_end l = l.tailroom
room remove_beginning l = l.filled
room remove_end l = l.filled

layout_eq :
    (m : MBuf) (h d t : ℕ)
    → m.data_off ≡ h
    → m.data_len ≡ d
    → pkt_tailroom m ≡ t
    → layout m ≡ record { headroom = h; filled = d; tailroom = t }
layout_eq m h d t a b c =
    ap (λ x. record (layout m) { headroom = x }) a
    ∙ ap (λ x. record { headroom = h; filled = x; tailroom = pkt_tailroom m }) b
    ∙ ap (λ x. record { headroom = h; filled = d; tailroom = x }) c

-- On a buffer of one segment whose data lie within it, each of the four operations keeps it so.
-- If the room it takes from (headroom, tailroom, or the data) has `len` bytes, it returns `len`
-- and moves exactly `len` bytes between that room and the data; if not, it returns 0 and the
-- headroom, the data's length and the tailroom stay as they are.
pub resize_lem :
    (op : Resize) (m : MBuf) (len : ℕ)
    → IsValid m
    → IsValid (resize op m len).0
      × ((resize op m len).1 ≡ (if ltb (room op (layout m)) len then 0 else len))
      × (layout (resize op m len).0
          ≡ (if ltb (room op (layout m)) len then layout m else move op (layout m) len))
unfolding resize move room add_data_beginning add_data_end remove_data_beginning remove_data_end
resize_lem add_beginning m len ok = elim (dec_lt m.data_off len) [
  | yes big ↦ let t : ltb m.data_off len ≡ true = ground arith in rw t (ok, refl, refl)
  | no fits ↦
      let t : ltb m.data_off len ≡ false = ground arith in
      let m' : MBuf = record m {
        data_off = sub16 m.data_off len;
        data_len = add16 m.data_len len;
        pkt_len = add32 m.pkt_len (len % 2 ^ 32);
      } in
      rw t (
        record {
          within = omega (arith, ok.within, ok.short, ok.single);
          short = ok.short;
          single = omega (arith, ok.within, ok.short, ok.single);
        },
        refl,
        layout_eq m' (m.data_off - len) (m.data_len + len) (pkt_tailroom m)
            (omega (arith, ok.within, ok.short, ok.single))
            (omega (arith, ok.within, ok.short, ok.single))
            (omega (arith, ok.within, ok.short, ok.single)),
      )
]
resize_lem add_end m len ok = elim (dec_lt (pkt_tailroom m) len) [
  | yes big ↦ let t : ltb (pkt_tailroom m) len ≡ true = ground arith in rw t (ok, refl, refl)
  | no fits ↦
      let t : ltb (pkt_tailroom m) len ≡ false = ground arith in
      let m' : MBuf = record m {
        data_off = m.data_off;
        data_len = add16 m.data_len len;
        pkt_len = add32 m.pkt_len (len % 2 ^ 32);
      } in
      rw t (
        record {
          within = omega (arith, ok.within, ok.short, ok.single);
          short = ok.short;
          single = omega (arith, ok.within, ok.short, ok.single);
        },
        refl,
        layout_eq m' (m.data_off) (m.data_len + len) (pkt_tailroom m - len)
            (omega (arith, ok.within, ok.short, ok.single))
            (omega (arith, ok.within, ok.short, ok.single))
            (omega (arith, ok.within, ok.short, ok.single)),
      )
]
resize_lem remove_beginning m len ok = elim (dec_lt m.data_len len) [
  | yes big ↦ let t : ltb m.data_len len ≡ true = ground arith in rw t (ok, refl, refl)
  | no fits ↦
      let t : ltb m.data_len len ≡ false = ground arith in
      let m' : MBuf = record m {
        data_off = add16 m.data_off len;
        data_len = sub16 m.data_len len;
        pkt_len = sub32 m.pkt_len (len % 2 ^ 32);
      } in
      rw t (
        record {
          within = omega (arith, ok.within, ok.short, ok.single);
          short = ok.short;
          single = omega (arith, ok.within, ok.short, ok.single);
        },
        refl,
        layout_eq m' (m.data_off + len) (m.data_len - len) (pkt_tailroom m)
            (omega (arith, ok.within, ok.short, ok.single))
            (omega (arith, ok.within, ok.short, ok.single))
            (omega (arith, ok.within, ok.short, ok.single)),
      )
]
resize_lem remove_end m len ok = elim (dec_lt m.data_len len) [
  | yes big ↦ let t : ltb m.data_len len ≡ true = ground arith in rw t (ok, refl, refl)
  | no fits ↦
      let t : ltb m.data_len len ≡ false = ground arith in
      let m' : MBuf = record m {
        data_off = m.data_off;
        data_len = sub16 m.data_len len;
        pkt_len = sub32 m.pkt_len (len % 2 ^ 32);
      } in
      rw t (
        record {
          within = omega (arith, ok.within, ok.short, ok.single);
          short = ok.short;
          single = omega (arith, ok.within, ok.short, ok.single);
        },
        refl,
        layout_eq m' (m.data_off) (m.data_len - len) (pkt_tailroom m + len)
            (omega (arith, ok.within, ok.short, ok.single))
            (omega (arith, ok.within, ok.short, ok.single))
            (omega (arith, ok.within, ok.short, ok.single)),
      )
]
