-- ===== src/Functions/Nat/Ports.antt =====
-- The branches of the translation of test/nat/src/nf.rs, and the ports that it has.
use net_bricks.Prelude.{
  ℕ, ◌+◌, ◌≤◌, ◌<◌, ◌≡◌, refl, sym, ◌∙◌, List, none, some, arith, true, length, ltb,
  get_elem?-eq-get_or, get_elem?_of_length-le, Option-cases, get_or, set, inl, inr,
}
use net_bricks.Prelude.Run.{returns, panics}
use net_bricks.Flow.{Flow}
use net_bricks.Functions.Nat.{
  Nat, FlowUsed, unused, max_port, outgoing, known, enter, assign, translate,
}

module _ (ip : ℕ) (s : Nat) (flow : Flow) where
  pub translate-known :
      (out : Flow) → known s flow ≡ some out → translate ip s flow ≡ returns (s, some out)
  unfolding translate
  translate-known out there = rw (translate, there) refl

  translate_new : known s flow ≡ none → translate ip s flow ≡ assign ip s flow
  unfolding translate
  translate_new new = rw (translate, new) refl

  -- The state after `flow` has got the next port.
  abbrev pub entered : List FlowUsed → Nat
  entered flow_vec = record {
    port_hash = enter flow (outgoing ip s.next_port flow) s.port_hash;
    flow_vec = flow_vec;
    next_port = s.next_port + 1;
  }

  -- The vector with the flow at the next port.
  abbrev pub marked : List FlowUsed
  marked =
      set s.flow_vec s.next_port
        (record (get_or s.flow_vec s.next_port unused) { flow = flow; used = true })

  pub assign_lem :
      known s flow ≡ none
      → s.next_port < max_port
      → s.next_port < length s.flow_vec
      → translate ip s flow ≡ returns (entered marked, some (outgoing ip s.next_port flow))
  unfolding assign
  assign_lem new left within =
      let t : ltb s.next_port max_port ≡ true = ground arith in
      translate_new new
      ∙ rw (t, assign, get_elem?-eq-get_or s.flow_vec s.next_port unused within) refl

  -- A translation that leaves the state as it is was known.
  pub known_of_translate :
      (out : Flow) → translate ip s flow ≡ returns (s, some out) → known s flow ≡ some out
  unfolding assign
  known_of_translate out runs = elim (Option-cases (known s flow)) [
    | inr (o, there) ↦ cc (there, sym (translate-known o there) ∙ runs)
    | inl new ↦ ground (arith, sym (translate_new new) ∙ runs)
  ]

  pub assign_past :
      known s flow ≡ none
      → s.next_port < max_port
      → length s.flow_vec ≤ s.next_port
      → translate ip s flow ≡ panics
  unfolding assign
  assign_past new left past =
      let t : ltb s.next_port max_port ≡ true = ground arith in
      translate_new new ∙ rw (t, assign, get_elem?_of_length-le s.flow_vec s.next_port past) refl
