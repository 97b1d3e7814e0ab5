-- ===== src/Planning/Validator/Ancestry.antt =====
-- The dict of ancestors that the check of agent concurrency looks into.
use juris_ai.Base.{
  String, ◌≡◌, refl, sym, ◌∙◌, subst, ap, ◌⊎◌, inl, inr, some, List, [], ◌∷◌, In, String-cases,
  ≡→==,
}
use juris_ai.Base.Dict.{Dict, get, put, get-put, put_keeps}
use juris_ai.Planning.Plan.{ExecutionStep}
use juris_ai.Planning.Plan.Graph.{Reaches}
use juris_ai.Planning.Ancestors.Reach.{IsClosure, transitive_dependencies-IsClosure}
use juris_ai.Planning.Validator.{ancestors_from}

-- One of the two steps depends on the other.
abbrev pub Comparable : Dict (List String) → String → String → Type 0
Comparable d a b = Reaches d a b ⊎ Reaches d b a

pub flip : {d : Dict (List String)} {a b : String} → Comparable d a b → Comparable d b a
flip (inl r) = inr r
flip (inr r) = inl r

-- Every entry of the dict of ancestors is exact.
abbrev pub IsExact : Dict (List String) → Dict (List String) → Type 0
IsExact d found = (a : String) (r : List String) → get a found ≡ some r → IsClosure d a r

IsExact-put :
    (d found : Dict (List String)) (a : String) (r : List String)
    → IsClosure d a r
    → IsExact d found
    → IsExact d (put a r found)
IsExact-put d found a r c h b s e = elim (String-cases a b) [
  | inl p ↦
      let same : r ≡ s = cc (get-put a b r found, ≡→== a b p) in
      subst (λ z. IsClosure d z s) p (subst (λ l. IsClosure d a l) same c)
  | inr q ↦ h b s (sym (get-put a b r found ∙ rw (q.1)) ∙ e)
]

module _ {Json : Type 0} where
  -- The dict of ancestors is made, is exact, and has an entry for each step.
  pub record IsMade (d found : Dict (List String)) (steps : List (ExecutionStep Json))
      : Type 0 where
    pub anc : Dict (List String)
    pub made : ancestors_from d found steps ≡ some anc
    pub exact : IsExact d anc
    pub kept :
        (b : String) (s : List String)
        → get b found ≡ some s
        → (r : List String) × (get b anc ≡ some r)
    pub all :
        (step : ExecutionStep Json) → In step steps → (r : List String) × (get step.id anc ≡ some r)

  pub ancestors_from-IsMade :
      (d found : Dict (List String)) (steps : List (ExecutionStep Json))
      → IsExact d found
      → IsMade d found steps
  unfolding ancestors_from
  ancestors_from-IsMade d found [] h = record {
    anc = found;
    made = refl;
    exact = h;
    kept = λ b s e. (s, e);
    all = λ step m. elim m [ ];
  }
  ancestors_from-IsMade d found (step ∷ steps) h =
      let (r, e, c) = transitive_dependencies-IsClosure d step.id in
      let rest =
        ancestors_from-IsMade d (put step.id r found) steps (IsExact-put d found step.id r c h) in
      record {
        anc = rest.anc;
        made = rw (e, ancestors_from) (rest.made);
        exact = rest.exact;
        kept = λ b s k. let (t, q) = put_keeps step.id b r found (inr (s, k)) in rest.kept b t q;
        all = λ other m. elim m [
          | inl p ↦
              let (t, q) =
                put_keeps step.id other.id r found
                  (inl (sym (ap (λ (z : ExecutionStep Json). z.id) p))) in
              rest.kept other.id t q
          | inr n ↦ rest.all other n
        ];
      }
