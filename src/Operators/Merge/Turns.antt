-- ===== src/Operators/Merge/Turns.antt =====
-- The turns of the parents in framework/src/operators/merge_batch.rs.
use net_bricks.Prelude.{
  ℕ, zero, suc, ◌+◌, ◌*◌, ◌<◌, ◌≡◌, refl, sym, ap, ap₂, ◌∙◌, List, [], ◌∷◌, ◌++◌, map, some, arith,
  length, length-append, get_elem?, set,
}
use net_bricks.Prelude.Run.{Run, returns, panics, out_of_fuel, bind}
use net_bricks.Operators.Merge.{MergeBatch, new, on_parent, advance, execute}

bind_later :
    {A B C : Type 0} (m : Run A) (h : A → Run C) (f : A → Run B) (g : B → Run C)
    → ((a : A) → h a ≡ bind (f a) g)
    → bind m h ≡ bind (bind m f) g
bind_later (returns a) h f g e = e a
bind_later panics h f g e = refl
bind_later out_of_fuel h f g e = refl

module _ {T : Type 0} where
  -- A batch whose next parent is the first after `ys`.
  abbrev at : List T → List T → MergeBatch T
  at ys zs = record { parents = ys ++ zs; which = length ys }

  get_elem?-append :
      (ys : List T) (x : T) (zs : List T) → get_elem? (ys ++ x ∷ zs) (length ys) ≡ some x
  get_elem?-append [] x zs = refl
  get_elem?-append (y ∷ ys) x zs = get_elem?-append ys x zs

  set-append :
      (ys : List T) (x v : T) (zs : List T) → set (ys ++ x ∷ zs) (length ys) v ≡ ys ++ v ∷ zs
  set-append [] x v zs = refl
  set-append (y ∷ ys) x v zs = ap (λ t. y ∷ t) (set-append ys x v zs)

  append_step : (ys : List T) (x : T) (zs : List T) → (ys ++ x ∷ []) ++ zs ≡ ys ++ x ∷ zs
  append_step [] x zs = refl
  append_step (y ∷ ys) x zs = ap (λ t. y ∷ t) (append_step ys x zs)

  on_parent_lem :
      (f : T → T) (ys : List T) (x : T) (zs : List T)
      → on_parent f (at ys (x ∷ zs)) ≡ returns (at ys (f x ∷ zs))
  on_parent_lem f ys x zs =
      rw (on_parent, get_elem?-append ys x zs)
        (ap (λ t. returns (record { parents = t; which = length ys })) (set-append ys x (f x) zs))

  module _ (parent_act parent_done : T → T) where
    abbrev pub turn : T → T
    turn x = parent_done (parent_act x)

    unfoldable pub execute_times : ℕ → MergeBatch T → Run (MergeBatch T)
    execute_times zero b = returns b
    execute_times (suc n) b = bind (execute parent_act parent_done b) (execute_times n)

    unfoldable pub turns : ℕ → T → T
    turns zero x = x
    turns (suc n) x = turns n (turn x)

    execute_lem :
        (ys : List T) (x : T) (zs : List T)
        → execute parent_act parent_done (at ys (x ∷ zs)) ≡ returns (advance (at ys (turn x ∷ zs)))
    execute_lem ys x zs =
        rw (on_parent_lem parent_act ys x zs)
          (rw (on_parent_lem parent_done ys (parent_act x) zs) refl)

    advance_last : (ys : List T) (x : T) → advance (at ys (x ∷ [])) ≡ new (ys ++ x ∷ [])
    advance_last ys x =
        let n : length (ys ++ x ∷ []) ≡ length ys + 1 = length-append ys (x ∷ []) in ground arith

    advance_next :
        (ys : List T) (x z : T) (zs : List T)
        → advance (at ys (x ∷ z ∷ zs)) ≡ at (ys ++ x ∷ []) (z ∷ zs)
    advance_next ys x z zs =
        let n : length (ys ++ x ∷ z ∷ zs) ≡ length ys + suc (suc (length zs)) =
          length-append ys (x ∷ z ∷ zs) in
        let later : advance (at ys (x ∷ z ∷ zs))
            ≡ record { parents = ys ++ x ∷ z ∷ zs; which = length ys + 1 } =
          ground arith in
        later
        ∙ ap₂ (λ ps i. record { parents = ps; which = i }) (sym (append_step ys x (z ∷ zs)))
            (sym (length-append ys (x ∷ [])))

    round :
        (ys : List T) (x : T) (zs : List T)
        → execute_times (suc (length zs)) (at ys (x ∷ zs)) ≡ returns (new (ys ++ map turn (x ∷ zs)))
    unfolding execute_times
    round ys x [] =
        ap (λ r. bind r (execute_times 0)) (execute_lem ys x [])
        ∙ ap returns (advance_last ys (turn x))
    round ys x (z ∷ zs) =
        ap (λ r. bind r (execute_times (suc (length zs)))) (execute_lem ys x (z ∷ zs))
        ∙ ap (execute_times (suc (length zs))) (advance_next ys (turn x) z zs)
        ∙ round (ys ++ turn x ∷ []) z zs
        ∙ ap (λ t. returns (new t)) (append_step ys (turn x) (map turn (z ∷ zs)))

    execute_times-add :
        (m n : ℕ) (b : MergeBatch T)
        → execute_times (m + n) b ≡ bind (execute_times m b) (execute_times n)
    unfolding execute_times
    execute_times-add zero n b = ap (λ i. execute_times i b) (omega arith)
    execute_times-add (suc m) n b =
        let e : suc m + n ≡ suc (m + n) = omega arith in
        ap (λ i. execute_times i b) e
        ∙ bind_later (execute parent_act parent_done b) (execute_times (m + n)) (execute_times m)
            (execute_times n) (execute_times-add m n)

    length-map : (f : T → T) (xs : List T) → length (map f xs) ≡ length xs
    length-map f [] = refl
    length-map f (x ∷ xs) = ap suc (length-map f xs)

    map-turn : (k : ℕ) (xs : List T) → map (turns k) (map turn xs) ≡ map (turns (suc k)) xs
    unfolding turns
    map-turn k [] = refl
    map-turn k (x ∷ xs) = ap (λ t. turns k (turn x) ∷ t) (map-turn k xs)

    map-turns_zero : (xs : List T) → map (turns 0) xs ≡ xs
    unfolding turns
    map-turns_zero [] = refl
    map-turns_zero (x ∷ xs) = ap (λ t. x ∷ t) (map-turns_zero xs)

    -- A merged batch with at least one parent, run `k` times as often as it has parents, does not
    -- panic. Each of its parents has then acted and been done `k` times, and it is the turn of the
    -- first parent again.
    pub execute_times_lem :
        (k : ℕ) (parents : List T)
        → 0 < length parents
        → execute_times (k * length parents) (new parents) ≡ returns (new (map (turns k) parents))
    unfolding execute_times
    execute_times_lem k [] some_parent = ground arith
    execute_times_lem zero (x ∷ xs) some_parent =
        let e : 0 * suc (length xs) ≡ 0 = ground arith in
        ap (λ i. execute_times i (new (x ∷ xs))) e
        ∙ ap (λ t. returns (new t)) (sym (map-turns_zero (x ∷ xs)))
    execute_times_lem (suc k) (x ∷ xs) some_parent =
        let ps : List T = x ∷ xs in
        let ps' : List T = map turn ps in
        let e : suc k * length ps ≡ suc (length xs) + k * length ps = ground arith in
        ap (λ i. execute_times i (new ps)) e
        ∙ execute_times-add (suc (length xs)) (k * length ps) (new ps)
        ∙ ap (λ r. bind r (execute_times (k * length ps))) (round [] x xs)
        ∙ ap (λ i. execute_times (k * suc i) (new ps')) (sym (length-map turn xs))
        ∙ execute_times_lem k ps' (ground arith)
        ∙ ap (λ t. returns (new t)) (map-turn k ps)
