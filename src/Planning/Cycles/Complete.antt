-- ===== src/Planning/Cycles/Complete.antt =====
-- What the search of _visit_dependency in server/src/agentic/planning/validator.py reports of
-- dependencies that name known steps: its outcomes, lookups and fuel.
use juris_ai.Base.{
  ℕ, zero, suc, ◌+◌, ◌<◌, String, ◌≡◌, refl, subst, inl, inr, List, [], ◌∷◌, arith, In, length,
  elem, elem→In, elem-false, without_absent, Distinct, Distinct-length-le, Bool-cases, ==_refl, ap,
  sym,
}
use juris_ai.Base.Dict.{Dict, keys, get-keys}
use juris_ai.Planning.Plan.Graph.{Needs, Reaches, direct, further}
use juris_ai.Planning.Cycles.{
  Colours, Visit, done, cycle, key_error, out_of_fuel, ◌>>=◌, visit_all, leave, explore,
  visit_dependency, validate_dependency_graph, no_colours,
}

module _ (d : Dict (List String)) where
  -- Every dependency is a step.
  abbrev pub IsClosed : Type 0
  IsClosed = (a b : String) → Needs d a b → In b (keys d)

  -- The end of a visit that was begun with `path` under visit: `path` as it was, or a real cycle.
  abbrev pub Ends : List String → Visit → Type 0
  Ends path (done c) = c.visiting ≡ path
  Ends path cycle = (x : String) × Reaches d x x
  Ends path key_error = ⊥
  Ends path out_of_fuel = ⊥

  record IsPath (path : List String) : Type 0 where
    distinct : Distinct path
    known : (v : String) → In v path → In v (keys d)

  abbrev LeadsTo : List String → String → Type 0
  LeadsTo path a = (v : String) → In v path → Reaches d v a

  abbrev EndsWell : ℕ → (String → Colours → Visit) → Type 0
  EndsWell fuel visit =
      (a : String) (path : List String) (c : Colours)
      → c.visiting ≡ path
      → In a (keys d)
      → IsPath path
      → LeadsTo path a
      → length (keys d) < fuel + length path
      → Ends path (visit a c)

  Ends-bind :
      (path : List String) (m : Visit) (f : Colours → Visit) (end : List String)
      → Ends path m
      → ((c : Colours) → c.visiting ≡ path → Ends end (f c))
      → Ends end (m >>= f)
  Ends-bind path (done c) f end h k = k c h
  Ends-bind path cycle f end h k = h
  Ends-bind path key_error f end h k = h
  Ends-bind path out_of_fuel f end h k = h

  visit_all-Ends :
      (fuel : ℕ) (visit : String → Colours → Visit) (xs path : List String) (c : Colours)
      → EndsWell fuel visit
      → c.visiting ≡ path
      → IsPath path
      → ((x : String) → In x xs → In x (keys d) × LeadsTo path x)
      → length (keys d) < fuel + length path
      → Ends path (visit_all visit xs c)
  unfolding visit_all
  visit_all-Ends fuel visit [] path c good at p lead h = at
  visit_all-Ends fuel visit (x ∷ xs) path c good at p lead h =
      let (known, to) = lead x (inl refl) in
      Ends-bind path (visit x c) (visit_all visit xs) path (good x path c at known p to h)
        (λ b e. visit_all-Ends fuel visit xs path b good e p (λ y m. lead y (inr m)) h)

  leave-Ends :
      (a : String) (path : List String) (b : Colours)
      → ¬ In a path
      → b.visiting ≡ a ∷ path
      → Ends path (leave a b)
  unfolding leave
  leave-Ends a path b absent e = rw (e, ==_refl a) (without_absent a path absent)

  IsPath-cons :
      (a : String) (path : List String)
      → In a (keys d)
      → ¬ In a path
      → IsPath path
      → IsPath (a ∷ path)
  IsPath-cons a path known absent p = record {
    distinct = (absent, p.distinct);
    known =
        λ v m. elim m [ inl e ↦ subst (λ z. In z (keys d)) (sym e) known | inr n ↦ p.known v n ];
  }

  LeadsTo-cons :
      (a x : String) (path : List String) → Needs d a x → LeadsTo path a → LeadsTo (a ∷ path) x
  LeadsTo-cons a x path n lead v m = elim m [
    | inl e ↦ subst (λ z. Reaches d z x) (sym e) (direct n)
    | inr k ↦ further (lead v k) n
  ]

  visit_dependency-Ends : IsClosed → (fuel : ℕ) → EndsWell fuel (visit_dependency fuel d)
  unfolding visit_dependency
  visit_dependency-Ends closed zero a path c at known p lead h =
      omega (arith, Distinct-length-le path (keys d) p.distinct p.known)
  visit_dependency-Ends closed (suc fuel) a path c at known p lead h =
      elim (Bool-cases (elem a c.visited)) [
        | inl seen ↦ rw seen at
        | inr new ↦ elim (Bool-cases (elem a c.visiting)) [
          | inl busy ↦ rw (new, busy) (a, lead a (subst (In a) at (elem→In a c.visiting busy)))
          | inr free ↦
              let absent : ¬ In a path = subst (λ l. ¬ In a l) at (elem-false a c.visiting free) in
              let (needs, found) = get-keys a d known in
              let loop =
                visit_all-Ends fuel (visit_dependency fuel d) needs (a ∷ path)
                  (record c { visiting = a ∷ c.visiting }) (visit_dependency-Ends closed fuel)
                  (ap (λ l. a ∷ l) at) (IsPath-cons a path known absent p)
                  (λ x m.
                    let n : Needs d a x = record { needs = needs; found = found; listed = m } in
                    (closed a x n, LeadsTo-cons a x path n lead))
                  (omega arith) in
              rw (new, free, found, explore)
                (Ends-bind (a ∷ path) _ (leave a) path loop (λ b e. leave-Ends a path b absent e))
        ]
      ]

  -- The search ends with nothing under visit, or reports a cycle that is there.
  pub validate_dependency_graph-Ends : IsClosed → Ends [] (validate_dependency_graph d)
  unfolding validate_dependency_graph
  validate_dependency_graph-Ends closed =
      visit_all-Ends (suc (length (keys d))) (visit_dependency (suc (length (keys d))) d) (keys d)
        [] no_colours (visit_dependency-Ends closed (suc (length (keys d)))) refl
        (record { distinct = tt; known = λ v m. elim m [ ] }) (λ x m. (m, λ v n. elim n [ ]))
        (omega arith)
