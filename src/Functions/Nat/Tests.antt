-- ===== src/Functions/Nat/Tests.antt =====
-- Runs of test/nat/src/nf.rs with a vector of four entries.
use native.Mathlib.Decide.{ℕ_discrete}
use net_bricks.Prelude.{ℕ, length, ◌-◌, ◌<◌, ◌≡◌, refl, [], ◌∷◌, none, some, arith, ◌⊎◌}
use net_bricks.Prelude.Run.{returns, panics}
use net_bricks.Flow.{Flow, reverse_flow}
use net_bricks.Stores.Maps.{find, put}
use net_bricks.Functions.Nat.{Nat, Flow-discrete, unused, min_port, new, outgoing, known, translate}
use net_bricks.Functions.Nat.Ports.{entered, marked, assign_lem}
use net_bricks.Functions.Nat.Exhausted.{Served, start, fresh, new_entries, translate-Served}
use net_bricks.Functions.Nat.Replies.{IsConsistent, translate_lem}

abbrev state : ℕ → Nat
state next_port = record {
  port_hash = [];
  flow_vec = unused ∷ unused ∷ unused ∷ unused ∷ [];
  next_port = next_port;
}

state-IsConsistent : (ip port : ℕ) → IsConsistent ip (state port)
unfolding find
state-IsConsistent ip port = record {
  forward = λ f out there ne. cc there;
  given = λ g back there here. cc there;
}

abbrev web : Flow
web = record { src_ip = 10; dst_ip = 20; src_port = 5000; dst_port = 80; proto = 6 }

abbrev names : Flow
names = record { src_ip = 11; dst_ip = 20; src_port = 5001; dst_port = 53; proto = 17 }

web_unknown : (port : ℕ) → known (state port) web ≡ none
unfolding find
web_unknown port = refl

translate_lem_example :
    (s' : Nat) × (port : ℕ) × (translate 99 (state 2) web
      ≡ returns (s', some (outgoing 99 port web)))
    × (port < s'.next_port)
    × IsConsistent 99 s'
    × ((g back : Flow) → known (state 2) g ≡ some back → known s' g ≡ some back)
    × (translate 99 s' web ≡ returns (s', some (outgoing 99 port web)))
    × (translate 99 s' (reverse_flow (outgoing 99 port web))
        ≡ returns (s', some (reverse_flow web)))
translate_lem_example =
    translate_lem 99 (state 2) web (state-IsConsistent 99 2) (omega arith) (omega arith)
      (omega arith)

some_entries : new.next_port < length new.flow_vec
some_entries = omega (arith, new_entries (65535 - min_port))

-- The state after the first flow from the start.
abbrev one_served : Nat
one_served = entered 99 new web (marked 99 new web)

one_served-Served : Served 99 1 one_served
unfolding find
one_served-Served = fresh web start refl (assign_lem 99 new web refl (omega arith) some_entries)

names_unknown : known one_served names ≡ none
unfolding find put Flow-discrete ℕ_discrete
names_unknown = refl

translate-Served_example :
    ((1 < 63487)
      × (s' : Nat) × (translate 99 one_served names ≡ returns (s', some (outgoing 99 1025 names))))
    ⊎ ((◌≡◌ {A = ℕ} 1 63487) × (translate 99 one_served names ≡ panics))
translate-Served_example = translate-Served 99 1 one_served names one_served-Served names_unknown
