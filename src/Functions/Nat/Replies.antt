-- ===== src/Functions/Nat/Replies.antt =====
-- The table of test/nat/src/nf.rs: every flow keeps its translation, and its replies come back.
use net_bricks.Prelude.{
  ℕ, ◌<◌, ◌≡◌, ◌≢◌, sym, ap, ◌∙◌, List, none, some, arith, length, Option-cases, inl, inr,
}
use net_bricks.Prelude.Run.{returns}
use net_bricks.Flow.{Flow, reverse_flow}
use net_bricks.Stores.Maps.{find, put, find-put_self, find-put_ne}
use net_bricks.Functions.Nat.{
  Nat, FlowUsed, max_port, Flow-discrete, outgoing, known, enter, translate, new,
}
use net_bricks.Functions.Nat.Ports.{
  translate-known, marked, entered, assign_lem, known_of_translate,
}

-- A flow that is not sent to the address of the translation has a port of its own, and its replies
-- are known; what is sent to that address goes to a port that has been given out.
pub record IsConsistent (ip : ℕ) (s : Nat) : Type 0 where
  pub forward :
      (f out : Flow)
      → known s f ≡ some out
      → f.dst_ip ≢ ip
      → (port : ℕ) × (out ≡ outgoing ip port f)
        × (port < s.next_port)
        × (known s (reverse_flow out) ≡ some (reverse_flow f))
  pub given : (g back : Flow) → known s g ≡ some back → g.dst_ip ≡ ip → g.dst_port < s.next_port

module _ (table : List (Flow × Flow)) (flow out : Flow) where
  find-enter_reply :
      find Flow-discrete (reverse_flow out) (enter flow out table) ≡ some (reverse_flow flow)
  find-enter_reply =
      find-put_self Flow-discrete (reverse_flow out) (reverse_flow flow)
        (put Flow-discrete flow out table)

  find-enter_flow :
      flow ≢ reverse_flow out → find Flow-discrete flow (enter flow out table) ≡ some out
  find-enter_flow ne =
      find-put_ne Flow-discrete (reverse_flow out) flow (reverse_flow flow)
        (put Flow-discrete flow out table) ne
      ∙ find-put_self Flow-discrete flow out table

  find-enter_other :
      (g : Flow)
      → g ≢ reverse_flow out
      → g ≢ flow
      → find Flow-discrete g (enter flow out table) ≡ find Flow-discrete g table
  find-enter_other g ne ne' =
      find-put_ne Flow-discrete (reverse_flow out) g (reverse_flow flow)
        (put Flow-discrete flow out table) ne
      ∙ find-put_ne Flow-discrete flow g out table ne'

module _ (ip : ℕ) (s : Nat) (flow : Flow) (ok : IsConsistent ip s)
    (out_of_here : flow.dst_ip ≢ ip) where
  -- What was known before is known still.
  entered-known :
      (flow_vec : List FlowUsed) (g back : Flow)
      → known s flow ≡ none
      → known s g ≡ some back
      → known (entered ip s flow flow_vec) g ≡ some back
  entered-known flow_vec g back new there =
      find-enter_other s.port_hash flow (outgoing ip s.next_port flow) g
        (λ e.
          absurd
            (omega (arith, ok.given g back there (ap (λ f. f.dst_ip) e), ap (λ f. f.dst_port) e)))
        (λ e. cc (sym new ∙ ap (known s) (sym e) ∙ there))
      ∙ there

  entered-IsConsistent :
      (flow_vec : List FlowUsed)
      → known s flow ≡ none
      → IsConsistent ip (entered ip s flow flow_vec)
  entered-IsConsistent flow_vec new =
      let made : Flow = outgoing ip s.next_port flow in
      let from_here : flow ≢ reverse_flow made = λ e. out_of_here (ap (λ f. f.dst_ip) e) in
      record {
        forward = λ f out there ne. elim (Flow-discrete f flow) [
          | yes e ↦
              let same : out ≡ made = cc (
                sym there
                ∙ ap (known (entered ip s flow flow_vec)) e
                ∙ find-enter_flow s.port_hash flow made from_here) in
              (
                s.next_port,
                same ∙ ap (outgoing ip s.next_port) (sym e),
                omega arith,
                ap (λ o. known (entered ip s flow flow_vec) (reverse_flow o)) same
                    ∙ find-enter_reply s.port_hash flow made
                    ∙ ap (λ x. some (reverse_flow x)) (sym e),
              )
          | no other ↦
              let before : known s f ≡ some out =
                sym
                  (find-enter_other s.port_hash flow made f (λ e. ne (ap (λ x. x.dst_ip) e)) other)
                ∙ there in
              let (port, stamped, given, replies) = ok.forward f out before ne in
              (
                port,
                stamped,
                omega arith,
                entered-known flow_vec (reverse_flow out) (reverse_flow f) new replies,
              )
        ];
        given = λ g back there here. elim (Flow-discrete g (reverse_flow made)) [
          | yes e ↦ omega (arith, ap (λ x. x.dst_port) e)
          | no other ↦
              let before : known s g ≡ some back =
                sym (
                  find-enter_other s.port_hash flow made g other
                    (λ e. out_of_here (ap (λ x. x.dst_ip) (sym e) ∙ here)))
                ∙ there in
              omega (arith, ok.given g back before here)
        ];
      }

  -- For a table in which replies are consistent, and a flow that is not sent to the address of the
  -- translation: if the next port is below the largest one and within the vector, `translate`
  -- gives a flow that differs only in its source, which is the address with a port that has been
  -- given out. The table stays consistent and keeps all that it knew, and in it the reply of that
  -- flow is translated to the reply of the original flow.
  pub translate_lem :
      s.next_port < max_port
      → s.next_port < length s.flow_vec
      → (s' : Nat) × (port : ℕ) × (translate ip s flow ≡ returns (s', some (outgoing ip port flow)))
        × (port < s'.next_port)
        × IsConsistent ip s'
        × ((g back : Flow) → known s g ≡ some back → known s' g ≡ some back)
        × (translate ip s' flow ≡ returns (s', some (outgoing ip port flow)))
        × (translate ip s' (reverse_flow (outgoing ip port flow))
            ≡ returns (s', some (reverse_flow flow)))
  translate_lem left within = elim (Option-cases (known s flow)) [
    | inr (out, there) ↦
        let (port, stamped, given, replies) = ok.forward flow out there out_of_here in
        let known_out : known s flow ≡ some (outgoing ip port flow) = there ∙ ap some stamped in
        let back : known s (reverse_flow (outgoing ip port flow)) ≡ some (reverse_flow flow) =
          ap (λ o. known s (reverse_flow o)) (sym stamped) ∙ replies in
        let again = translate-known ip s flow (outgoing ip port flow) known_out in
        (
          s,
          port,
          again,
          given,
          ok,
          λ g b h. h,
          again,
          translate-known ip s (reverse_flow (outgoing ip port flow)) (reverse_flow flow) back,
        )
    | inl new ↦
        let made : Flow = outgoing ip s.next_port flow in
        let vec : List FlowUsed = marked ip s flow in
        let s' : Nat = entered ip s flow vec in
        let from_here : flow ≢ reverse_flow made = λ e. out_of_here (ap (λ f. f.dst_ip) e) in
        (
          s',
          s.next_port,
          assign_lem ip s flow new left within,
          omega arith,
          entered-IsConsistent vec new,
          λ g b h. entered-known vec g b new h,
          translate-known ip s' flow made (find-enter_flow s.port_hash flow made from_here),
          translate-known ip s' (reverse_flow made) (reverse_flow flow)
              (find-enter_reply s.port_hash flow made),
        )
  ]

-- In a consistent table, two flows that are not sent to the address of the translation and that
-- have the same translation, which leaves the table as it is, are the same.
pub translate-injective :
    (ip : ℕ) (s : Nat) (f g out : Flow)
    → IsConsistent ip s
    → f.dst_ip ≢ ip
    → g.dst_ip ≢ ip
    → translate ip s f ≡ returns (s, some out)
    → translate ip s g ≡ returns (s, some out)
    → f ≡ g
translate-injective ip s f g out ok nf ng tf tg =
    let (p, ef, lf, rf) = ok.forward f out (known_of_translate ip s f out tf) nf in
    let (q, eg, lg, rg) = ok.forward g out (known_of_translate ip s g out tg) ng in
    let e : reverse_flow f ≡ reverse_flow g = cc (sym rf ∙ rg) in ap reverse_flow e

-- The table is consistent at the start.
pub new-IsConsistent : (ip : ℕ) → IsConsistent ip new
unfolding find
new-IsConsistent ip = record {
  forward = λ f out there ne. cc there;
  given = λ g back there here. cc there;
}
