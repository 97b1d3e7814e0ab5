-- ===== src/Planning/Validator/Pairs.antt =====
-- The loops over the pairs of one group.
use juris_ai.Base.{
  String, true, ◌≡◌, ◌≢◌, sym, ◌∙◌, subst, ap, ◌⊎◌, inl, inr, some, List, [], ◌∷◌, ◌++◌, arith, In,
  All-at, elem, elem→In, In→elem, Bool-cases, Option-cases,
}
use juris_ai.Base.Dict.{Dict, get}
use juris_ai.Base.Result.{ok, >>-eq-ok}
use juris_ai.Planning.Plan.{AgentType, ExecutionStep}
use juris_ai.Planning.Validator.{Check, for_each, check_pair, check_pairs}
use juris_ai.Planning.Validator.Checks.{for_each-eq-ok}
use juris_ai.Planning.Validator.Ancestry.{Comparable, flip, IsExact}

pub In-snoc : {A : Type 0} (a x : A) (xs : List A) → In a (xs ++ x ∷ []) → In a xs ⊎ (a ≡ x)
In-snoc a x [] (inl p) = inr p
In-snoc a x [] (inr n) = elim n [ ]
In-snoc a x (y ∷ ys) (inl p) = inl (inl p)
In-snoc a x (y ∷ ys) (inr m) = elim (In-snoc a x ys m) [ inl n ↦ inl (inr n) | inr p ↦ inr p ]

pub for_each-snoc :
    {A : Type 0} (check : A → Check) (xs : List A) (x : A)
    → for_each check xs ≡ ok tt
    → check x ≡ ok tt
    → for_each check (xs ++ x ∷ []) ≡ ok tt
for_each-snoc check [] x e h = rw h
for_each-snoc check (y ∷ ys) x e h =
    let (a, b) = >>-eq-ok (check y) (for_each check ys) e in rw a (for_each-snoc check ys x b h)

module _ {Json : Type 0} where
  module _ (d anc : Dict (List String)) (exact : IsExact d anc) where
    pub check_pair→Comparable :
        (b : AgentType) (s t : ExecutionStep Json)
        → check_pair anc b s t ≡ ok tt
        → Comparable d s.id t.id
    unfolding check_pair
    check_pair→Comparable b s t e = elim (Option-cases (get t.id anc)) [
      | inl p ↦ absurd (ground arith)
      | inr (r, p) ↦ elim (Bool-cases (elem s.id r)) [
        | inl m ↦ inr ((exact t.id r p s.id).0 (elem→In s.id r m))
        | inr m ↦ elim (Option-cases (get s.id anc)) [
          | inl q ↦ absurd (ground arith)
          | inr (u, q) ↦
              let found : elem t.id u ≡ true = ground arith in
              inl ((exact s.id u q t.id).0 (elem→In t.id u found))
        ]
      ]
    ]

    pub Comparable→check_pair :
        (b : AgentType) (s t : ExecutionStep Json) (u r : List String)
        → get s.id anc ≡ some u
        → get t.id anc ≡ some r
        → Comparable d s.id t.id
        → check_pair anc b s t ≡ ok tt
    unfolding check_pair
    Comparable→check_pair b s t u r q p (inr c) =
        ground (arith, In→elem s.id r ((exact t.id r p s.id).1 c))
    Comparable→check_pair b s t u r q p (inl c) =
        ground (arith, In→elem t.id u ((exact s.id u q t.id).1 c))

    -- Two members of a group that passed are the same one, or comparable.
    pub check_pairs→Comparable :
        (b : AgentType) (ss : List (ExecutionStep Json)) (s t : ExecutionStep Json)
        → check_pairs anc b ss ≡ ok tt
        → In s ss
        → In t ss
        → s.id ≢ t.id
        → Comparable d s.id t.id
    unfolding check_pairs
    check_pairs→Comparable b [] s t e m n ne = elim m [ ]
    check_pairs→Comparable b (x ∷ ss) s t e m n ne =
        let (here, later) = >>-eq-ok (for_each (check_pair anc b x) ss) (check_pairs anc b ss) e in
        let each = (for_each-eq-ok (check_pair anc b x) ss).0 here in
        let beside = λ (y : ExecutionStep Json) (k : In y ss).
          check_pair→Comparable b x y (All-at (λ z. check_pair anc b x z ≡ ok tt) y ss each k) in
        elim m [
          | inl p ↦ elim n [
            | inl q ↦ absurd (ne (ap (λ (z : ExecutionStep Json). z.id) (p ∙ sym q)))
            | inr n' ↦
                subst (λ (z : ExecutionStep Json). Comparable d z.id t.id) (sym p) (beside t n')
          ]
          | inr m' ↦ elim n [
            | inl q ↦
                flip
                  (subst (λ (z : ExecutionStep Json). Comparable d z.id s.id) (sym q) (beside s m'))
            | inr n' ↦ check_pairs→Comparable b ss s t later m' n' ne
          ]
        ]
