-- ===== src/PacketBatch/Send.antt =====
-- Sending a batch (framework/src/operators/packet_batch.rs): what is left in it.
use net_bricks.Prelude.{
  ℕ, zero, suc, ◌-◌, ◌≤◌, ◌<◌, ◌≡◌, refl, sym, ap, ◌∙◌, List, [], ◌∷◌, false, take, drop, ◌==◌,
  sub64, arith,
}
use net_bricks.Prelude.Run.{returns}
use net_bricks.Errors.{Result, ok}
use net_bricks.PacketBatch.{PacketBatch, array, consume_batch_partial, send_q}
use net_bricks.PacketBatch.Drop.{IsValid, move_down_lem}

take_nil : (n : ℕ) → take {A = ℕ} n [] ≡ []
take_nil zero = refl
take_nil (suc n) = refl

drop-take : (n k : ℕ) (xs : List ℕ) → drop k (take n xs) ≡ take (n - k) (drop k xs)
drop-take n zero xs = let e : n ≡ n - 0 = omega arith in ap (λ (t : ℕ). take t xs) e
drop-take zero (suc k) xs =
    let e : 0 ≡ 0 - suc k = omega arith in ap (λ (t : ℕ). take t (drop (suc k) xs)) e
drop-take (suc n) (suc k) [] = sym (take_nil (suc n - suc k))
drop-take (suc n) (suc k) (x ∷ xs) =
    let e : n - k ≡ suc n - suc k = omega arith in
    drop-take n k xs ∙ ap (λ (t : ℕ). take t (drop k xs)) e

-- If a batch within its capacity has packets, and the port sends `sent` of them, `send_q` returns
-- `sent` and leaves the packets after the first `sent` ones, in their order.
pub send_q_lem :
    (port : List ℕ → Result ℕ) (b : PacketBatch) (sent : ℕ)
    → IsValid b
    → 0 < b.len
    → sent ≤ b.len
    → port (array b) ≡ ok sent
    → (b' : PacketBatch) × (send_q port b ≡ returns (b', ok sent))
      × IsValid b'
      × (array b' ≡ drop sent (array b))
unfolding send_q consume_batch_partial
send_q_lem port b sent valid some h e =
    let (slots', run, same, all) =
      move_down_lem (b.len - sent) sent 0 b.slots (omega (arith, valid.within)) (omega arith) in
    let left : sub64 b.len sent ≡ b.len - sent = omega (arith, valid.within, valid.addressable) in
    let b' : PacketBatch = record b { slots = slots'; len = sub64 b.len sent } in
    let test : (b.len == 0) ≡ false = ground arith in
    (
      b',
      rw (test, e) (rw run),
      record {
        within = omega (arith, left, same, valid.within);
        addressable = omega (arith, same, valid.addressable);
        freed = valid.freed;
      },
      ap (λ (t : ℕ). take t slots') (left ∙ omega arith) ∙ all ∙ sym (drop-take b.len sent b.slots),
    )
