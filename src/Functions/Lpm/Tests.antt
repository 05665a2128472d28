-- ===== src/Functions/Lpm/Tests.antt =====
-- A lookup in the tables of test/lpm/src/nf.rs for three prefixes, each within the one before.
use net_bricks.Prelude.{ℕ, ◌^◌, ◌≤◌, ◌≡◌, refl, List, [], ◌∷◌, arith}
use net_bricks.Prelude.Run.{returns}
use net_bricks.Functions.Lpm.{IpLookup, default, construct_table, lookup_entry}
use net_bricks.Functions.Lpm.Entering.{IsPrefix, covers}
use net_bricks.Functions.Lpm.Longest.{count}
use net_bricks.Functions.Lpm.Matches.{
  AllPrefixes, EachGate, Longest, found, here, lookup_entry-Longest,
}

-- 10.0.0.0/8, 10.0.0.128/25 and 10.0.0.129/32
abbrev raw : List (List (ℕ × ℕ))
raw =
    []
    ∷ []
    ∷ []
    ∷ []
    ∷ []
    ∷ []
    ∷ []
    ∷ []
    ∷ ((167772160, 1) ∷ [])
    ∷ []
    ∷ []
    ∷ []
    ∷ []
    ∷ []
    ∷ []
    ∷ []
    ∷ []
    ∷ []
    ∷ []
    ∷ []
    ∷ []
    ∷ []
    ∷ []
    ∷ []
    ∷ []
    ∷ ((167772288, 2) ∷ [])
    ∷ []
    ∷ []
    ∷ []
    ∷ []
    ∷ []
    ∷ []
    ∷ ((167772289, 3) ∷ [])
    ∷ []

eight : IsPrefix 8 167772160 1
eight = record { bits = 10; aligned = refl; within = omega arith; gate = omega arith }

twenty_five : IsPrefix 25 167772288 2
twenty_five = record { bits = 1310721; aligned = refl; within = omega arith; gate = omega arith }

thirty_two : IsPrefix 32 167772289 3
thirty_two = record { bits = 167772289; aligned = refl; within = omega arith; gate = omega arith }

raw-AllPrefixes : AllPrefixes 0 raw
raw-AllPrefixes = (
  tt,
  (
    tt,
    (
      tt,
      (
        tt,
        (
          tt,
          (
            tt,
            (
              tt,
              (
                tt,
                (
                  (eight, tt),
                  (
                    tt,
                    (
                      tt,
                      (
                        tt,
                        (
                          tt,
                          (
                            tt,
                            (
                              tt,
                              (
                                tt,
                                (
                                  tt,
                                  (
                                    tt,
                                    (
                                      tt,
                                      (
                                        tt,
                                        (
                                          tt,
                                          (
                                            tt,
                                            (
                                              tt,
                                              (
                                                tt,
                                                (
                                                  tt,
                                                  (
                                                    (twenty_five, tt),
                                                    (
                                                      tt,
                                                      (
                                                        tt,
                                                        (
                                                          tt,
                                                          (tt, (tt, (tt, ((thirty_two, tt), tt)))),
                                                        ),
                                                      ),
                                                    ),
                                                  ),
                                                ),
                                              ),
                                            ),
                                          ),
                                        ),
                                      ),
                                    ),
                                  ),
                                ),
                              ),
                            ),
                          ),
                        ),
                      ),
                    ),
                  ),
                ),
              ),
            ),
          ),
        ),
      ),
    ),
  ),
)

few_long : count 8 25 raw ≤ 2 ^ 15
unfolding count
few_long = omega arith

-- 10.0.0.130 has the first and the second.
second-Longest : Longest raw 167772290 2
unfolding covers EachGate
second-Longest =
    found 25 167772288 8 2 refl (omega arith) (here refl refl) refl
      (((λ c. refl), tt), (tt, (tt, (tt, (tt, (tt, (tt, (((λ c. cc), tt), tt))))))))

lookup_entry-Longest_example :
    (t' : IpLookup) × (construct_table (record default { raw_entries = raw }) ≡ returns t')
    × (lookup_entry t' 167772290 ≡ returns 2)
lookup_entry-Longest_example =
    lookup_entry-Longest raw 167772290 2 refl raw-AllPrefixes few_long (omega arith) second-Longest
