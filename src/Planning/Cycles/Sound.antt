-- ===== src/Planning/Cycles/Sound.antt =====
-- The steps that an ended search of server/src/agentic/planning/validator.py has visited.
use mathlib.Core.WellFounded.{Acc}
use juris_ai.Base.{
  ℕ, zero, suc, String, ◌≡◌, refl, sym, subst, inl, inr, Option, none, some, List, [], ◌∷◌, arith,
  In, length, All, All-at, elem, elem→In, Bool-cases,
}
use juris_ai.Base.Dict.{Dict, get, keys}
use juris_ai.Planning.Plan.Graph.{Before}
use juris_ai.Planning.Cycles.{
  Colours, Visit, done, cycle, key_error, out_of_fuel, ◌>>=◌, visit_all, leave, explore,
  visit_dependency, validate_dependency_graph, no_colours,
}

pub >>=-eq-done :
    (m : Visit) (f : Colours → Visit) {c : Colours}
    → (m >>= f) ≡ done c
    → (b : Colours) × (m ≡ done b) × (f b ≡ done c)
>>=-eq-done (done b) f h = (b, refl, h)
>>=-eq-done cycle f h = cc
>>=-eq-done key_error f h = cc
>>=-eq-done out_of_fuel f h = cc

module _ (d : Dict (List String)) where
  -- Every step that the search left behind unwinds.
  abbrev pub Settled : Colours → Type 0
  Settled c = All (Acc (Before d)) c.visited

  -- What a visit keeps and achieves.
  pub record Visited (before after : Colours) : Type 0 where
    pub settled : Settled after
    pub kept : (x : String) → In x before.visited → In x after.visited

  -- A visit that returns has `a` among the visited.
  abbrev pub Settles : (String → Colours → Visit) → Type 0
  Settles visit =
      (a : String) (c c' : Colours)
      → Settled c
      → visit a c ≡ done c'
      → Visited c c' × In a c'.visited

  visit_all-Settles :
      (visit : String → Colours → Visit) (xs : List String) (c c' : Colours)
      → Settles visit
      → Settled c
      → visit_all visit xs c ≡ done c'
      → Visited c c' × ((x : String) → In x xs → In x c'.visited)
  unfolding visit_all
  visit_all-Settles visit [] c c' good s e =
      (subst (Visited c) (same e) (record { settled = s; kept = λ x m. m }), λ x m. elim m [ ])
    where
      same : done c ≡ done c' → c ≡ c'
      same p = cc
  visit_all-Settles visit (x ∷ xs) c c' good s e =
      let (b, first, rest) = >>=-eq-done (visit x c) (visit_all visit xs) e in
      let (v, here) = good x c b s first in
      let (w, there) = visit_all-Settles visit xs b c' good v.settled rest in
      (
        record { settled = w.settled; kept = λ y m. w.kept y (v.kept y m) },
        λ y m. elim m [
          | inl p ↦ subst (λ z. In z c'.visited) (sym p) (w.kept x here)
          | inr n ↦ there y n
        ],
      )

  leave-eq-done : (a : String) (b c' : Colours) → leave a b ≡ done c' → c'.visited ≡ a ∷ b.visited
  unfolding leave
  leave-eq-done a b c' e = ground arith

  Acc-intro_needs :
      (a : String) (needs : List String) (b : Colours)
      → get a d ≡ some needs
      → Settled b
      → ((x : String) → In x needs → In x b.visited)
      → Acc (Before d) a
  Acc-intro_needs a needs b found s all = Acc.intro a (λ x n.
      let same : n.needs ≡ needs = cc (n.found) in
      All-at (Acc (Before d)) x b.visited s (all x (subst (λ l. In x l) same n.listed)))

  explore-Settles :
      (visit : String → Colours → Visit) (o : Option (List String)) (a : String) (c c' : Colours)
      → Settles visit
      → get a d ≡ o
      → Settled c
      → explore visit o a c ≡ done c'
      → Visited c c' × In a c'.visited
  unfolding explore
  explore-Settles visit none a c c' good found s e = cc
  explore-Settles visit (some needs) a c c' good found s e =
      let (b, loop, last) = >>=-eq-done (visit_all visit needs _) (leave a) e in
      let (v, all) = visit_all-Settles visit needs _ b good s loop in
      let out = leave-eq-done a b c' last in
      (
        record {
          settled =
              subst (All (Acc (Before d))) (sym out)
                (Acc-intro_needs a needs b found v.settled all, v.settled);
          kept = λ x m. subst (λ l. In x l) (sym out) (inr (v.kept x m));
        },
        subst (λ l. In a l) (sym out) (inl refl),
      )

  visit_dependency-Settles : (fuel : ℕ) → Settles (visit_dependency fuel d)
  unfolding visit_dependency
  visit_dependency-Settles zero a c c' s e = cc
  visit_dependency-Settles (suc fuel) a c c' s e = elim (Bool-cases (elem a c.visited)) [
    | inl seen ↦
        let same : c ≡ c' = cc (rw seen at e) in
        subst (λ z. Visited c z × In a z.visited) same
          (record { settled = s; kept = λ x m. m }, elem→In a c.visited seen)
    | inr new ↦ elim (Bool-cases (elem a c.visiting)) [
      | inl busy ↦ cc (rw (new, busy) at e)
      | inr free ↦
          explore-Settles (visit_dependency fuel d) (get a d) a c c' (visit_dependency-Settles fuel)
            refl s (rw (new, free) at e)
    ]
  ]

  -- If the search accepts, the dependencies of every step unwind.
  pub validate_dependency_graph-Acc :
      (c : Colours)
      → validate_dependency_graph d ≡ done c
      → (a : String) → In a (keys d)
      → Acc (Before d) a
  unfolding validate_dependency_graph
  validate_dependency_graph-Acc c e a m =
      let (v, all) =
        visit_all-Settles (visit_dependency (suc (length (keys d))) d) (keys d) no_colours c
          (visit_dependency-Settles (suc (length (keys d)))) tt e in
      All-at (Acc (Before d)) a c.visited v.settled (all a m)
