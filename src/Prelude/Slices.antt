-- ===== src/Prelude/Slices.antt =====
-- Copying between slices, as `copy_from_slice` and the standard library's `Read` and `Write` for
-- slices do it: as many elements as both sides have.
use Prim.Native.Nat.{ℕ, zero, suc, ◌+◌, ◌-◌, ◌≤◌, ◌<◌}
use mathlib.Core.Path.{◌≡◌, refl, ap}
use mathlib.Core.List.{List, [], ◌∷◌}
use mathlib.Core.Bool.{◌&&◌}
use native.Mathlib.Omega.{arith}
use net_bricks.Prelude.Lists.{length, get_or, set, take}
use net_bricks.Prelude.Tests.{ltb, leb, if◌then◌else◌}

module _ {ℓ} {A : Type ℓ} where
  -- the destination, then the source
  unfoldable pub copy_into : List A → List A → List A
  copy_into [] src = []
  copy_into (x ∷ xs) [] = x ∷ xs
  copy_into (x ∷ xs) (y ∷ ys) = y ∷ copy_into xs ys

  -- the same from an offset of the destination on
  unfoldable pub write_slice : ℕ → List A → List A → List A
  unfolding copy_into
  write_slice zero xs src = copy_into xs src
  write_slice (suc o) [] src = []
  write_slice (suc o) (x ∷ xs) src = x ∷ write_slice o xs src

  pub length-copy_into : (xs ys : List A) → length (copy_into xs ys) ≡ length xs
  unfolding copy_into
  length-copy_into [] ys = refl
  length-copy_into (x ∷ xs) [] = refl
  length-copy_into (x ∷ xs) (y ∷ ys) = ap suc (length-copy_into xs ys)

  pub length-write_slice : (o : ℕ) (xs ys : List A) → length (write_slice o xs ys) ≡ length xs
  unfolding write_slice
  length-write_slice zero xs ys = length-copy_into xs ys
  length-write_slice (suc o) [] ys = refl
  length-write_slice (suc o) (x ∷ xs) ys = ap suc (length-write_slice o xs ys)

  pub get_or-copy_into :
      (xs ys : List A) (i : ℕ) (d : A)
      → i < length xs
      → get_or (copy_into xs ys) i d ≡ (if ltb i (length ys) then get_or ys i d else get_or xs i d)
  unfolding copy_into
  get_or-copy_into [] ys i d h = elim h [ ]
  get_or-copy_into (x ∷ xs) [] i d h = ground arith
  get_or-copy_into (x ∷ xs) (y ∷ ys) zero d h = ground arith
  get_or-copy_into (x ∷ xs) (y ∷ ys) (suc i) d h =
      ground (arith, get_or-copy_into xs ys i d (omega arith))

  pub get_or-write_slice :
      (o : ℕ) (xs ys : List A) (i : ℕ) (d : A)
      → i < length xs
      → get_or (write_slice o xs ys) i d
        ≡ (if leb o i && ltb i (o + length ys) then get_or ys (i - o) d else get_or xs i d)
  unfolding write_slice
  get_or-write_slice zero xs ys i d h = ground (arith, get_or-copy_into xs ys i d h)
  get_or-write_slice (suc o) [] ys i d h = elim h [ ]
  get_or-write_slice (suc o) (x ∷ xs) ys zero d h = ground arith
  get_or-write_slice (suc o) (x ∷ xs) ys (suc i) d h =
      ground (arith, get_or-write_slice o xs ys i d (omega arith))

module _ {ℓ} {A : Type ℓ} where
  pub write_slice-nil : (o : ℕ) (xs : List A) → write_slice o xs [] ≡ xs
  unfolding write_slice copy_into
  write_slice-nil zero [] = refl
  write_slice-nil zero (x ∷ xs) = refl
  write_slice-nil (suc o) [] = refl
  write_slice-nil (suc o) (x ∷ xs) = ap (λ t. x ∷ t) (write_slice-nil o xs)

  -- A slice is written from its first element on.
  pub write_slice-cons :
      (o : ℕ) (xs ys : List A) (y : A)
      → o < length xs
      → write_slice o xs (y ∷ ys) ≡ write_slice (suc o) (set xs o y) ys
  unfolding write_slice copy_into
  write_slice-cons o [] ys y h = elim h [ ]
  write_slice-cons zero (x ∷ xs) ys y h = refl
  write_slice-cons (suc o) (x ∷ xs) ys y h =
      ap (λ t. x ∷ t) (write_slice-cons o xs ys y (omega arith))

  -- What goes past the end is not written.
  pub write_slice-take :
      (o k : ℕ) (xs ys : List A)
      → length xs ≤ o + k
      → write_slice o xs (take k ys) ≡ write_slice o xs ys
  unfolding write_slice copy_into
  write_slice-take zero zero [] ys h = refl
  write_slice-take zero zero (x ∷ xs) ys h = elim h [ ]
  write_slice-take zero (suc k) [] ys h = refl
  write_slice-take zero (suc k) (x ∷ xs) [] h = refl
  write_slice-take zero (suc k) (x ∷ xs) (y ∷ ys) h =
      ap (λ t. y ∷ t) (write_slice-take zero k xs ys (omega arith))
  write_slice-take (suc o) k [] ys h = refl
  write_slice-take (suc o) k (x ∷ xs) ys h =
      ap (λ t. x ∷ t) (write_slice-take o k xs ys (omega arith))
