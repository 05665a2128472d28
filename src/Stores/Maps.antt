-- ===== src/Stores/Maps.antt =====
-- The parts of a hash map that the stores of framework/src/state use, on its list of entries.
use mathlib.Core.Logic.{ite, if_pos, if_neg}
use net_bricks.Prelude.{◌≡◌, ◌≢◌, refl, sym, ap, ◌∙◌, List, [], ◌∷◌, ◌++◌, Option, none, some}

module _ {K V : Type 0} (same : (a b : K) → Dec (a ≡ b)) where
  unfoldable pub find : K → List (K × V) → Option V
  find k [] = none
  find k ((a, v) ∷ entries) = ite (same k a) (some v) (find k entries)

  unfoldable pub put : K → V → List (K × V) → List (K × V)
  put k v [] = (k, v) ∷ []
  put k v ((a, w) ∷ entries) = ite (same k a) ((a, v) ∷ entries) ((a, w) ∷ put k v entries)

  unfoldable pub erase : K → List (K × V) → List (K × V)
  erase k [] = []
  erase k ((a, w) ∷ entries) = ite (same k a) (erase k entries) ((a, w) ∷ erase k entries)

  -- `extend`: the later entries of a key replace the earlier ones.
  unfoldable pub put_all : List (K × V) → List (K × V) → List (K × V)
  put_all [] entries = entries
  put_all ((k, v) ∷ rest) entries = put_all rest (put k v entries)

  pub find-put_self : (k : K) (v : V) (entries : List (K × V)) → find k (put k v entries) ≡ some v
  unfolding find put
  find-put_self k v [] = if_pos (same k k) refl (some v) none
  find-put_self k v ((a, w) ∷ entries) = elim (same k a) [
    | yes e ↦
        ap (find k) (if_pos (same k a) e ((a, v) ∷ entries) ((a, w) ∷ put k v entries))
        ∙ if_pos (same k a) e (some v) (find k entries)
    | no ne ↦
        ap (find k) (if_neg (same k a) ne ((a, v) ∷ entries) ((a, w) ∷ put k v entries))
        ∙ if_neg (same k a) ne (some w) (find k (put k v entries))
        ∙ find-put_self k v entries
  ]

  pub find-put_ne :
      (k j : K) (v : V) (entries : List (K × V)) → j ≢ k → find j (put k v entries) ≡ find j entries
  unfolding find put
  find-put_ne k j v [] h = if_neg (same j k) h (some v) none
  find-put_ne k j v ((a, w) ∷ entries) h = elim (same k a) [
    | yes e ↦
        let ne : j ≢ a = λ q. h (q ∙ sym e) in
        ap (find j) (if_pos (same k a) e ((a, v) ∷ entries) ((a, w) ∷ put k v entries))
        ∙ if_neg (same j a) ne (some v) (find j entries)
        ∙ sym (if_neg (same j a) ne (some w) (find j entries))
    | no ne ↦
        ap (find j) (if_neg (same k a) ne ((a, v) ∷ entries) ((a, w) ∷ put k v entries))
        ∙ ap (λ t. ite (same j a) (some w) t) (find-put_ne k j v entries h)
  ]

  pub find-erase : (k : K) (entries : List (K × V)) → find k (erase k entries) ≡ none
  unfolding find erase
  find-erase k [] = refl
  find-erase k ((a, w) ∷ entries) = elim (same k a) [
    | yes e ↦
        ap (find k) (if_pos (same k a) e (erase k entries) ((a, w) ∷ erase k entries))
        ∙ find-erase k entries
    | no ne ↦
        ap (find k) (if_neg (same k a) ne (erase k entries) ((a, w) ∷ erase k entries))
        ∙ if_neg (same k a) ne (some w) (find k (erase k entries))
        ∙ find-erase k entries
  ]

  -- The value of the last update of a key, or `from` when there is none.
  unfoldable pub last_of : K → List (K × V) → Option V → Option V
  last_of k [] from = from
  last_of k ((a, v) ∷ rest) from = last_of k rest (ite (same k a) (some v) from)

  pub find-put_all :
      (k : K) (xs entries : List (K × V))
      → find k (put_all xs entries) ≡ last_of k xs (find k entries)
  unfolding put_all last_of
  find-put_all k [] entries = refl
  find-put_all k ((a, v) ∷ xs) entries =
      find-put_all k xs (put a v entries)
      ∙ ap (last_of k xs) (elim (same k a) [
        | yes e ↦
            ap (λ x. find x (put a v entries)) e
            ∙ find-put_self a v entries
            ∙ sym (if_pos (same k a) e (some v) (find k entries))
        | no ne ↦
            find-put_ne a k v entries ne ∙ sym (if_neg (same k a) ne (some v) (find k entries))
      ])

  pub last_of-append :
      (k : K) (xs ys : List (K × V)) (from : Option V)
      → last_of k (xs ++ ys) from ≡ last_of k ys (last_of k xs from)
  unfolding last_of
  last_of-append k [] ys from = refl
  last_of-append k ((a, v) ∷ xs) ys from = last_of-append k xs ys (ite (same k a) (some v) from)

  -- Every key has one entry.
  abbrev pub IsMap : List (K × V) → Type 0
  IsMap [] = Unit {0}
  IsMap ((a, v) ∷ entries) = (find a entries ≡ none) × IsMap entries

  pub put-IsMap : (k : K) (v : V) (entries : List (K × V)) → IsMap entries → IsMap (put k v entries)
  unfolding put find
  put-IsMap k v [] m = (refl, tt)
  put-IsMap k v ((a, w) ∷ entries) (fresh, m) = elim (same k a) [
    | yes e ↦ rw (if_pos (same k a) e ((a, v) ∷ entries) ((a, w) ∷ put k v entries)) (fresh, m)
    | no ne ↦
        rw (if_neg (same k a) ne ((a, v) ∷ entries) ((a, w) ∷ put k v entries))
          (find-put_ne k a v entries (λ q. ne (sym q)) ∙ fresh, put-IsMap k v entries m)
  ]

  pub put_all-IsMap : (xs entries : List (K × V)) → IsMap entries → IsMap (put_all xs entries)
  unfolding put_all
  put_all-IsMap [] entries m = m
  put_all-IsMap ((k, v) ∷ xs) entries m =
      put_all-IsMap xs (put k v entries) (put-IsMap k v entries m)

  last_of-absent :
      (k : K) (entries : List (K × V)) (from : Option V)
      → find k entries ≡ none
      → last_of k entries from ≡ from
  unfolding last_of find
  last_of-absent k [] from h = refl
  last_of-absent k ((a, v) ∷ entries) from h = elim (same k a) [
    | yes e ↦ cc (sym (if_pos (same k a) e (some v) (find k entries)) ∙ h)
    | no ne ↦
        rw (if_neg (same k a) ne (some v) from)
          (last_of-absent k entries from (sym (if_neg (same k a) ne (some v) (find k entries)) ∙ h))
  ]

  -- To go through the entries of a map is to look the key up.
  pub last_of-IsMap :
      (k : K) (entries : List (K × V)) → IsMap entries → last_of k entries none ≡ find k entries
  unfolding last_of find
  last_of-IsMap k [] m = refl
  last_of-IsMap k ((a, v) ∷ entries) (fresh, m) = elim (same k a) [
    | yes e ↦
        rw (if_pos (same k a) e (some v) none, if_pos (same k a) e (some v) (find k entries))
          (last_of-absent k entries (some v) (ap (λ x. find x entries) e ∙ fresh))
    | no ne ↦
        rw (if_neg (same k a) ne (some v) none, if_neg (same k a) ne (some v) (find k entries))
          (last_of-IsMap k entries m)
  ]
