-- ===== src/Reordered/Trace.antt =====
-- Histories of in-order segments and reads of a buffer of
-- framework/src/state/reordered_buffer/reordered_buffer.rs.
use mathlib.Core.List.{append_assoc, append-nil}
use net_bricks.Prelude.{
  ℕ, ◌≡◌, refl, sym, ap, ◌∙◌, List, [], ◌∷◌, ◌++◌, min, length, take, drop, take-append-drop,
  take-append_of_length, take-min_length, length-take, arith,
}
use net_bricks.Prelude.Run.{Run, returns, bind}
use net_bricks.RingBuffer.Window.{length-contents}
use net_bricks.Reordered.{
  ReorderedBuffer, InsertionResult, available, outcome, inserted, out_of_memory, add_data,
  read_data,
}
use net_bricks.Reordered.InOrder.{stream, room, IsConnected, add_data_in_order, read_data_lem}

-- A segment that starts where the stream ends, or a read into a slice.
pub data Event : Type 0 where
  arrives reads : List ℕ → Event

abbrev pub written : InsertionResult → ℕ
written (inserted n _) = n
written (out_of_memory n _) = n

-- The buffer after the events, the bytes that it has accepted and the bytes that were read.
pub replay : ℕ → ReorderedBuffer → List Event → Run (ReorderedBuffer × List ℕ × List ℕ)
replay fuel b [] = returns (b, [], [])
replay fuel b (arrives payload ∷ events) =
    bind (add_data fuel b b.tail_seq payload)
      λ r. bind (replay fuel r.0 events) λ t. returns (t.0, take (written r.1) payload ++ t.1, t.2)
replay fuel b (reads out ∷ events) =
    bind (read_data fuel b out)
      λ r. bind (replay fuel r.0 events) λ t. returns (t.0, t.1, take r.2 r.1 ++ t.2)

written-outcome : (w total : ℕ) (b : ReorderedBuffer) → written (outcome w total b) ≡ w
written-outcome w total b = ground arith

-- From a connected buffer, no history of in-order segments and reads panics or runs out of fuel,
-- and none loses, repeats or reorders a byte: what was held and what was accepted is what was
-- read and what is held now, and the buffer is still connected.
pub replay_lem :
    (fuel : ℕ) (b : ReorderedBuffer) (events : List Event)
    → IsConnected b
    → (b' : ReorderedBuffer) × (accepted : List ℕ) × (delivered : List ℕ) × (replay fuel b events
        ≡ returns (b', accepted, delivered))
      × (stream b ++ accepted ≡ delivered ++ stream b')
      × IsConnected b'
unfolding replay
replay_lem fuel b [] c = (b, [], [], refl, append-nil (stream b), c)
replay_lem fuel b (arrives payload ∷ events) c =
    let (next, e, a) = add_data_in_order fuel b payload c in
    let (b', accepted, delivered, run, same, c') = replay_lem fuel next events a.connected_still in
    let w : ℕ = min (length payload) (room b) in
    (
      b',
      take w payload ++ accepted,
      delivered,
      rw (e, written-outcome w (length payload) next, run),
      sym (append_assoc (stream b) (take w payload) accepted)
          ∙ ap (λ l. (stream b ++ l) ++ accepted) (take-min_length payload (room b))
          ∙ ap (λ l. l ++ accepted) (sym a.stream_grows)
          ∙ same,
      c',
    )
replay_lem fuel b (reads out ∷ events) c =
    let (next, e, rest, _, connected_still) = read_data_lem fuel b out c in
    let (b', accepted, delivered, run, same, c') = replay_lem fuel next events connected_still in
    let n : ℕ = min (available b) (length out) in
    let got = take n (stream b) in
    let count : length got ≡ n =
      omega (arith, length-take {0} n (stream b), length-contents b.ring) in
    let whole = take-append_of_length got (drop n out) n count in
    (
      b',
      accepted,
      got ++ delivered,
      rw (e, run, whole),
      ap (λ l. l ++ accepted) (sym (take-append-drop n (stream b)) ∙ ap (λ l. got ++ l) (sym rest))
          ∙ append_assoc got (stream next) accepted
          ∙ ap (λ l. got ++ l) same
          ∙ sym (append_assoc got delivered (stream b')),
      c',
    )
