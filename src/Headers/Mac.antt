-- ===== src/Headers/Mac.antt =====
-- The Ethernet header of framework/src/headers/mac.rs, without the `performance` feature. An
-- address is a list of six bytes.
mod Tests
mod Tags
use net_bricks.Prelude.{
  ℕ, zero, suc, List, [], ◌∷◌, Bool, true, ◌+◌, length, get_or, sub64, swap16, ◌==◌, if◌then◌else◌,
}
use net_bricks.Prelude.Run.{Run, returns, panics}
use net_bricks.Headers.{EndOffset}
use net_bricks.Headers.Null.{NullHeader}

pub record MacAddress : Type 0 where
  pub addr : List ℕ

-- `Default::default()`
abbrev pub no_address : MacAddress
no_address = record { addr = 0 ∷ 0 ∷ 0 ∷ 0 ∷ 0 ∷ 0 ∷ [] }

abbrev pub address : ℕ → ℕ → ℕ → ℕ → ℕ → ℕ → MacAddress
address a b c d e f = record { addr = a ∷ b ∷ c ∷ d ∷ e ∷ f ∷ [] }

-- An index out of the slice panics.
pub new_from_slice : List ℕ → Run MacAddress
new_from_slice (a ∷ b ∷ c ∷ d ∷ e ∷ f ∷ rest) = returns (address a b c d e f)
new_from_slice slice = panics

-- `self.copy_address(other)`
abbrev pub copy_address : MacAddress → MacAddress → MacAddress
copy_address h other = record h { addr = other.addr }

pub record MacHeader : Type 0 where
  pub dst : MacAddress
  pub src : MacAddress
  pub etype : ℕ

abbrev pub new : MacHeader
new = record { dst = no_address; src = no_address; etype = 0 }

abbrev pub hdr_size : ℕ
hdr_size = 14

abbrev pub hdr_size_802_1q : ℕ
hdr_size_802_1q = hdr_size + 4

abbrev pub hdr_size_802_1ad : ℕ
hdr_size_802_1ad = hdr_size_802_1q + 4

-- `match self.etype`, on the field as it lies in memory
unfoldable pub offset : MacHeader → ℕ
offset h =
    if h.etype == 33024
    then hdr_size_802_1q
    else (if h.etype == 37120 then hdr_size_802_1ad else hdr_size)

abbrev pub mac_offset : EndOffset MacHeader NullHeader
mac_offset = record {
  offset = offset;
  size = hdr_size;
  payload_size = λ h hint. sub64 hint (offset h);
  check_correct = λ _ _. true;
}

abbrev pub etype : MacHeader → ℕ
etype h = swap16 h.etype

abbrev pub set_etype : ℕ → MacHeader → MacHeader
set_etype etype h = record h { etype = swap16 etype }

abbrev pub swap_addresses : MacHeader → MacHeader
swap_addresses h =
    let src = copy_address no_address h.src in
    let h1 = record h { src = copy_address h.src h.dst } in
    record h1 { dst = copy_address h1.dst src }
