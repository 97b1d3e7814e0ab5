-- ===== src/Planning/Plan/Graph.antt =====
-- The dependency relation of a plan, apart from any code: what a step needs, directly or through
-- other steps, and what it means that no step needs itself.
use mathlib.Core.WellFounded.{Acc}
use juris_ai.Base.{String, ◌≡◌, refl, sym, subst, some, List, In, ◌⊎◌, inl, inr}
use juris_ai.Base.Dict.{Dict, get}

-- `Needs d a b`: step `b` stands in the `depends_on` of step `a`.
pub record Needs (d : Dict (List String)) (a b : String) : Type 0 where
  pub needs : List String
  pub found : get a d ≡ some needs
  pub listed : In b needs

-- `b` is needed by `a`, as an order: what is needed comes before.
abbrev pub Before : Dict (List String) → String → String → Type 0
Before d b a = Needs d a b

-- `Reaches d a b`: step `a` depends on `b`, directly or transitively.
pub data Reaches (d : Dict (List String)) (a : String) : String → Type 0 where
  direct : {b : String} → Needs d a b → Reaches d a b
  further : {b c : String} → Reaches d a b → Needs d b c → Reaches d a c

-- No step depends on itself.
abbrev pub Acyclic : Dict (List String) → Type 0
Acyclic d = (a : String) → ¬ Reaches d a a

module _ {d : Dict (List String)} where
  pub Reaches-trans : {a b c : String} → Reaches d a b → Reaches d b c → Reaches d a c
  Reaches-trans r (direct n) = further r n
  Reaches-trans r (further s n) = further (Reaches-trans r s) n

  -- A path begins with one edge.
  Needs-from : {a b c : String} → a ≡ b → Needs d b c → Needs d a c
  Needs-from {c = c} p n = subst (λ z. Needs d z c) (sym p) n

  -- A path begins with one edge.
  pub Reaches-first :
      {a c : String} → Reaches d a c → (b : String) × Needs d a b × ((b ≡ c) ⊎ Reaches d b c)
  Reaches-first {c = c} (direct n) = (c, n, inl refl)
  Reaches-first (further r n) = let (e, m, rest) = Reaches-first r in (e, m, inr (extend rest n))
    where
      extend : {e b c : String} → (e ≡ b) ⊎ Reaches d e b → Needs d b c → Reaches d e c
      extend (inl p) n = direct (Needs-from p n)
      extend (inr s) n = further s n

  -- A step whose dependencies unwind in finitely many steps lies on no cycle.
  pub Acc-not-Reaches : {a : String} → Acc (Before d) a → ¬ Reaches d a a
  Acc-not-Reaches (Acc.intro a smaller) r =
      let (b, n, rest) = Reaches-first r in Acc-not-Reaches (smaller b n) (closing b n rest)
    where
      closing : (b : String) → Needs d a b → (b ≡ a) ⊎ Reaches d b a → Reaches d b b
      closing b n (inl p) = subst (λ z. Reaches d z b) (sym p) (direct n)
      closing b n (inr s) = further s n
