-- ===== src/Functions/Nat.antt =====
-- The address translation of test/nat/src/nf.rs: the closure that transforms a packet, with what it
-- keeps. A flow gets a port of its own; its replies are translated back.
mod Tests
pub mod Ports
pub mod Exhausted
pub mod Replies
use native.Mathlib.Decide.{ℕ_discrete}
use net_bricks.Prelude.{
  ℕ, ◌+◌, ◌-◌, ◌≡◌, List, [], Bool, true, false, Option, none, some, ltb, get_elem?, set, replicate,
  if◌then◌else◌,
}
use net_bricks.Prelude.Run.{Run, returns, panics, bind}
use net_bricks.Flow.{Flow, reverse_flow, ipv4_extract_flow, ipv4_stamp_flow}
use net_bricks.Stores.Maps.{find, put}

pub record FlowUsed : Type 0 where
  pub flow : Flow
  pub time : ℕ
  pub used : Bool

pub record Nat : Type 0 where
  pub port_hash : List (Flow × Flow)
  pub flow_vec : List FlowUsed
  pub next_port : ℕ

abbrev pub min_port : ℕ
min_port = 1024

abbrev pub max_port : ℕ
max_port = 65535

pub Flow-discrete : (a b : Flow) → Dec (a ≡ b)
Flow-discrete = hlevel ℕ_discrete

abbrev pub unused : FlowUsed
unused = record {
  flow = record { src_ip = 0; dst_ip = 0; src_port = 0; dst_port = 0; proto = 0 };
  time = 0;
  used = false;
}

abbrev pub new : Nat
new = record { port_hash = []; flow_vec = replicate (65535 - min_port) unused; next_port = 1024 }

abbrev pub outgoing : ℕ → ℕ → Flow → Flow
outgoing ip port flow = record flow { src_ip = ip; src_port = port }

abbrev pub known : Nat → Flow → Option Flow
known s flow = find Flow-discrete flow s.port_hash

-- The table with a flow and its reply.
abbrev pub enter : Flow → Flow → List (Flow × Flow) → List (Flow × Flow)
enter flow out table =
    put Flow-discrete (reverse_flow out) (reverse_flow flow) (put Flow-discrete flow out table)

-- A flow that is not known yet. The port is an index, and one out of the vector panics.
unfoldable pub assign : ℕ → Nat → Flow → Run (Nat × Option Flow)
assign ip s flow =
    if ltb s.next_port max_port
    then elim (get_elem? s.flow_vec s.next_port) [
      | none ↦ panics
      | some entry ↦
          let out = outgoing ip s.next_port flow in
          returns (
            record {
              port_hash = enter flow out s.port_hash;
              flow_vec = set s.flow_vec s.next_port (record entry { flow = flow; used = true });
              next_port = s.next_port + 1;
            },
            some out,
          )
    ]
    else returns (s, none)

unfoldable pub translate : ℕ → Nat → Flow → Run (Nat × Option Flow)
translate ip s flow = elim (known s flow) [
  | none ↦ assign ip s flow
  | some out ↦ returns (s, some out)
]

unfoldable pub transform : (List ℕ → ℕ) → ℕ → Nat → List ℕ → Run (Nat × List ℕ)
transform ipv4_cksum ip s payload = bind (ipv4_extract_flow payload) λ flow.
    bind (translate ip s flow) λ r. elim r.1 [
      | none ↦ returns (r.0, payload)
      | some out ↦ bind (ipv4_stamp_flow ipv4_cksum out payload) λ payload. returns (r.0, payload)
    ]
