-- ===== src/Planning/Ancestors/Reach.antt =====
-- The loop of _transitive_dependencies in server/src/agentic/planning/validator.py, against the
-- steps that the dependencies reach.
use juris_ai.Base.{
  ℕ, zero, suc, ◌+◌, ◌≤◌, String, ◌≡◌, refl, sym, subst, ◌↔◌, ◌⊎◌, inl, inr, Option, none, some,
  List, [], ◌∷◌, arith, In, length, elem, elem→In, Bool-cases, String-cases, ==_refl, false,
}
use juris_ai.Base.Dict.{Dict, get}
use juris_ai.Planning.Plan.Graph.{Needs, Reaches, direct, further}
use juris_ai.Planning.Ancestors.{needs_of, extend, walk, pushes, transitive_dependencies}

length-extend : (xs stack : List String) → length (extend xs stack) ≡ length xs + length stack
unfolding extend
length-extend [] stack = omega arith
length-extend (x ∷ xs) stack = omega (arith, length-extend xs (x ∷ stack))

In-extend_old : (a : String) (xs stack : List String) → In a stack → In a (extend xs stack)
unfolding extend
In-extend_old a [] stack m = m
In-extend_old a (x ∷ xs) stack m = In-extend_old a xs (x ∷ stack) (inr m)

In-extend_new : (a : String) (xs stack : List String) → In a xs → In a (extend xs stack)
unfolding extend
In-extend_new a [] stack m = elim m [ ]
In-extend_new a (x ∷ xs) stack (inl e) = In-extend_old a xs (x ∷ stack) (inl e)
In-extend_new a (x ∷ xs) stack (inr m) = In-extend_new a xs (x ∷ stack) m

In-extend_cases :
    (a : String) (xs stack : List String) → In a (extend xs stack) → In a xs ⊎ In a stack
unfolding extend
In-extend_cases a [] stack m = inr m
In-extend_cases a (x ∷ xs) stack m = elim (In-extend_cases a xs (x ∷ stack) m) [
  | inl old ↦ inl (inr old)
  | inr new ↦ elim new [ inl e ↦ inl (inl e) | inr n ↦ inr n ]
]

module _ (d : Dict (List String)) where
  In-needs_of : (a b : String) → In b (needs_of (get a d)) ↔ Needs d a b
  unfolding needs_of
  In-needs_of a b = (to (get a d) refl, back)
    where
      to : (o : Option (List String)) → get a d ≡ o → In b (needs_of o) → Needs d a b
      to none e m = elim m [ ]
      to (some needs) e m = record { needs = needs; found = e; listed = m }

      back : Needs d a b → In b (needs_of (get a d))
      back n = rw (n.found) (n.listed)

pushes-met_le :
    (x : String) (found : List String) (d : Dict (List String))
    → pushes (x ∷ found) d ≤ pushes found d
unfolding pushes
pushes-met_le x found [] = omega arith
pushes-met_le x found ((k, needs) ∷ d) = ground (arith, pushes-met_le x found d)

-- Meeting a step takes its entry off the pushes to come.
pushes-met :
    (x : String) (found : List String) (d : Dict (List String))
    → elem x found ≡ false
    → length (needs_of (get x d)) + pushes (x ∷ found) d ≤ pushes found d
unfolding pushes needs_of
pushes-met x found [] h = omega arith
pushes-met x found ((k, needs) ∷ d) h = elim (String-cases k x) [
  | inl e ↦ rw (e, ==_refl x, h) (omega (arith, pushes-met_le x found d))
  | inr q ↦ ground (arith, q.1, pushes-met x found d h)
]

walk_total :
    (fuel : ℕ) (d : Dict (List String)) (found stack : List String)
    → length stack + pushes found d ≤ fuel
    → (r : List String) × (walk fuel d found stack ≡ some r)
unfolding walk
walk_total zero d found [] h = (found, refl)
walk_total (suc fuel) d found [] h = (found, refl)
walk_total zero d found (x ∷ stack) h = absurd (omega arith)
walk_total (suc fuel) d found (x ∷ stack) h = elim (Bool-cases (elem x found)) [
  | inl old ↦ let (r, e) = walk_total fuel d found stack (omega arith) in (r, rw old e)
  | inr new ↦
      let needs = needs_of (get x d) in
      let (r, e) =
        walk_total fuel d (x ∷ found) (extend needs stack)
          (omega (arith, length-extend needs stack, pushes-met x found d new)) in
      (r, rw new e)
]

module _ (d : Dict (List String)) (a : String) where
  -- What the loop keeps: all that it holds is reached, and what is needed is held.
  record IsPartial (found stack : List String) : Type 0 where
    reached : (x : String) → In x found ⊎ In x stack → Reaches d a x
    first : (x : String) → Needs d a x → In x found ⊎ In x stack
    onward : (x y : String) → In x found → Needs d x y → In y found ⊎ In y stack

  -- The answer: what `a` reaches.
  abbrev pub IsClosure : List String → Type 0
  IsClosure r = (x : String) → In x r ↔ Reaches d a x

  IsPartial-drop :
      (x : String) (found stack : List String)
      → In x found
      → IsPartial found (x ∷ stack)
      → IsPartial found stack
  IsPartial-drop x found stack old p = record {
    reached = λ y m. p.reached y (elim m [ inl f ↦ inl f | inr s ↦ inr (inr s) ]);
    first = λ y n. shift y (p.first y n);
    onward = λ y z m n. shift z (p.onward y z m n);
  }
    where
      shift : (y : String) → In y found ⊎ In y (x ∷ stack) → In y found ⊎ In y stack
      shift y (inl f) = inl f
      shift y (inr (inl e)) = inl (subst (λ w. In w found) (sym e) old)
      shift y (inr (inr s)) = inr s

  IsPartial-meet :
      (x : String) (found stack : List String)
      → IsPartial found (x ∷ stack)
      → IsPartial (x ∷ found) (extend (needs_of (get x d)) stack)
  IsPartial-meet x found stack p = record {
    reached = λ y m. elim m [
      | inl f ↦ elim f [ inl e ↦ p.reached y (inr (inl e)) | inr f' ↦ p.reached y (inl f') ]
      | inr s ↦ elim (In-extend_cases y (needs_of (get x d)) stack s) [
        | inl new ↦ further (p.reached x (inr (inl refl))) ((In-needs_of d x y).0 new)
        | inr old ↦ p.reached y (inr (inr old))
      ]
    ];
    first = λ y n. shift y (p.first y n);
    onward = λ y z m n. elim m [
      | inl e ↦ inr (In-extend_new z _ stack ((In-needs_of d x z).1 (subst (λ w. Needs d w z) e n)))
      | inr f ↦ shift z (p.onward y z f n)
    ];
  }
    where
      shift :
          (y : String)
          → In y found ⊎ In y (x ∷ stack)
          → In y (x ∷ found) ⊎ In y (extend (needs_of (get x d)) stack)
      shift y (inl f) = inl (inr f)
      shift y (inr (inl e)) = inl (inl e)
      shift y (inr (inr s)) = inr (In-extend_old y (needs_of (get x d)) stack s)

  IsPartial-end : (found : List String) → IsPartial found [] → IsClosure found
  IsPartial-end found p x = (λ m. p.reached x (inl m), λ r. held x r)
    where
      settled : (y : String) → In y found ⊎ In y [] → In y found
      settled y (inl f) = f
      settled y (inr s) = elim s [ ]

      held : (y : String) → Reaches d a y → In y found
      held y (direct n) = settled y (p.first y n)
      held y (further {b} r n) = settled y (p.onward b y (held b r) n)

  walk-IsClosure :
      (fuel : ℕ) (found stack r : List String)
      → IsPartial found stack
      → walk fuel d found stack ≡ some r
      → IsClosure r
  unfolding walk
  walk-IsClosure zero found [] r p e = subst IsClosure (cc) (IsPartial-end found p)
  walk-IsClosure (suc fuel) found [] r p e = subst IsClosure (cc) (IsPartial-end found p)
  walk-IsClosure zero found (x ∷ stack) r p e = cc
  walk-IsClosure (suc fuel) found (x ∷ stack) r p e = elim (Bool-cases (elem x found)) [
    | inl old ↦
        walk-IsClosure fuel found stack r (IsPartial-drop x found stack (elem→In x found old) p)
          (rw old at e)
    | inr new ↦
        walk-IsClosure fuel (x ∷ found) (extend (needs_of (get x d)) stack) r
          (IsPartial-meet x found stack p) (rw new at e)
  ]

  -- The loop of _transitive_dependencies ends, and returns exactly the steps that the given step
  -- depends on, directly or through others.
  pub transitive_dependencies-IsClosure :
      (r : List String) × (transitive_dependencies a d ≡ some r) × IsClosure r
  unfolding transitive_dependencies
  transitive_dependencies-IsClosure =
      let stack = extend (needs_of (get a d)) [] in
      let fuel = length stack + pushes [] d in
      let (r, e) = walk_total fuel d [] stack (omega arith) in
      (r, e, walk-IsClosure fuel [] stack r start e)
    where
      start : IsPartial [] (extend (needs_of (get a d)) [])
      start = record {
        reached = λ x m. elim m [
          | inl f ↦ elim f [ ]
          | inr s ↦ elim (In-extend_cases x (needs_of (get a d)) [] s) [
            | inl new ↦ direct ((In-needs_of d a x).0 new)
            | inr old ↦ elim old [ ]
          ]
        ];
        first = λ x n. inr (In-extend_new x (needs_of (get a d)) [] ((In-needs_of d a x).1 n));
        onward = λ x y m n. elim m [ ];
      }
