-- ===== src/Functions/Nat/Exhausted.antt =====
-- How many flows the translation of test/nat/src/nf.rs can take: its vector has an entry for each
-- port from 1024 to 65534, and is indexed by the port itself.
use native.Mathlib.Decide.{dec_lt}
use net_bricks.Prelude.{
  ℕ, suc, ◌+◌, true, ◌-◌, ◌≤◌, ◌<◌, ◌≡◌, sym, ap, ◌∙◌, Option, none, some, arith, length,
  length-set, get_or, length-replicate, replicate, ◌⊎◌, inl, inr,
}
use net_bricks.Prelude.Run.{returns, panics}
use net_bricks.Flow.{Flow}
use net_bricks.Functions.Nat.{Nat, min_port, unused, new, outgoing, known, translate}
use net_bricks.Functions.Nat.Ports.{translate-known, marked, entered, assign_lem, assign_past}

-- The states that the translation reaches from its start, with the number of flows that were not
-- known when they came.
pub data Served (ip : ℕ) : ℕ → Nat → Type 0 where
  start : Served ip 0 new
  again :
      {n : ℕ} {s s' : Nat} {out : Option Flow} (flow back : Flow)
      → Served ip n s
      → known s flow ≡ some back
      → translate ip s flow ≡ returns (s', out)
      → Served ip n s'
  fresh :
      {n : ℕ} {s s' : Nat} {out : Option Flow} (flow : Flow)
      → Served ip n s
      → known s flow ≡ none
      → translate ip s flow ≡ returns (s', out)
      → Served ip (suc n) s'

record HasPorts (n : ℕ) (s : Nat) : Type 0 where
  entries : length s.flow_vec ≡ 64511
  next : s.next_port ≡ min_port + n
  within : s.next_port ≤ 64511

pub new_entries : (entries : ℕ) → length (replicate entries unused) ≡ entries
new_entries entries = length-replicate entries unused

fresh-HasPorts :
    (ip n : ℕ) (s s' : Nat) (out : Option Flow) (flow : Flow)
    → HasPorts n s
    → known s flow ≡ none
    → translate ip s flow ≡ returns (s', out)
    → HasPorts (suc n) s'
fresh-HasPorts ip n s s' out flow h unknown run = elim (dec_lt s.next_port 64511) [
  | yes l ↦
      let assigned = assign_lem ip s flow unknown (omega arith) (omega (arith, h.entries)) in
      let e : s' ≡ entered ip s flow (marked ip s flow) = cc (sym run ∙ assigned) in
      rw (e) record {
        entries =
            length-set s.flow_vec s.next_port
              (record (get_or s.flow_vec s.next_port unused) { flow = flow; used = true })
            ∙ h.entries;
        next = omega (arith, h.next);
        within = omega arith;
      }
  | no past ↦
      let panicked =
        assign_past ip s flow unknown (omega (arith, h.within)) (omega (arith, h.entries)) in
      cc (sym run ∙ panicked)
]

Served-HasPorts : (ip n : ℕ) (s : Nat) → Served ip n s → HasPorts n s
Served-HasPorts ip _ _ start = record {
  entries = new_entries (65535 - min_port);
  next = omega arith;
  within = omega arith;
}
Served-HasPorts ip n _ (again {s = s} {s' = s'} {out = out} flow back r there run) =
    let same : s' ≡ s = cc (sym run ∙ translate-known ip s flow back there) in
    rw (same) (Served-HasPorts ip n s r)
Served-HasPorts ip _ _ (fresh {n = n} {s = s} {s' = s'} {out = out} flow r unknown run) =
    fresh-HasPorts ip n s s' out flow (Served-HasPorts ip n s r) unknown run

-- When `n` flows that were not known have come since the start, none of which panicked, and another
-- one comes: either there were fewer than 63487, and it gets the port 1024 + n; or there were exactly
-- 63487, which have the ports up to 64510, and `translate` panics, although port 64511 is below
-- MAX_PORT.
pub translate-Served :
    (ip n : ℕ) (s : Nat) (flow : Flow)
    → Served ip n s
    → known s flow ≡ none
    → ((n < 63487)
        × (s' : Nat) × (translate ip s flow ≡ returns (s', some (outgoing ip (min_port + n) flow))))
      ⊎ ((n ≡ 63487) × (translate ip s flow ≡ panics))
translate-Served ip n s flow r unknown =
    let h = Served-HasPorts ip n s r in
    elim (dec_lt s.next_port 64511) [
      | yes l ↦ inl (
        omega (arith, h.next),
        entered ip s flow (marked ip s flow),
        assign_lem ip s flow unknown (omega arith) (omega (arith, h.entries))
            ∙ ap
                (λ port.
                  returns (entered ip s flow (marked ip s flow), some (outgoing ip port flow)))
                h.next,
      )
      | no past ↦ inr (
        omega (arith, h.next, h.within),
        assign_past ip s flow unknown (omega (arith, h.within)) (omega (arith, h.entries)),
      )
    ]
