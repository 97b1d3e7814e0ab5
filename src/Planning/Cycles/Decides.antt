-- ===== src/Planning/Cycles/Decides.antt =====
-- The verdict of the search, for dependencies that name known steps.
use juris_ai.Base.{
  String, ◌≡◌, refl, subst, sym, ◌⊎◌, inl, inr, List, [], ◌∷◌, In, All, All-at, some, String-cases,
  ==_refl,
}
use juris_ai.Base.Dict.{Dict, get, keys, In-keys-get}
use juris_ai.Planning.Plan.Graph.{Reaches, Acyclic, Reaches-first, Acc-not-Reaches}
use juris_ai.Planning.Cycles.{
  Visit, done, cycle, key_error, out_of_fuel, Colours, validate_dependency_graph,
}
use juris_ai.Planning.Cycles.Sound.{validate_dependency_graph-Acc}
use juris_ai.Planning.Cycles.Complete.{IsClosed, Ends, validate_dependency_graph-Ends}

-- The entries of the dict name keys of `ks`.
abbrev pub NamesKeys : List String → Dict (List String) → Type 0
NamesKeys ks [] = Unit
NamesKeys ks ((k, needs) ∷ d) = All (λ x. In x ks) needs × NamesKeys ks d

NamesKeys-get :
    (ks : List String) (d : Dict (List String)) (a b : String) (needs : List String)
    → NamesKeys ks d
    → get a d ≡ some needs
    → In b needs
    → In b ks
NamesKeys-get ks [] a b needs h e m = cc
NamesKeys-get ks ((k, ns) ∷ d) a b needs h e m = elim (String-cases k a) [
  | inl p ↦
      let same : ns ≡ needs = cc (rw (p, ==_refl a) at e) in
      All-at (λ x. In x ks) b ns h.0 (subst (λ l. In b l) (sym same) m)
  | inr q ↦ NamesKeys-get ks d a b needs h.1 (rw (q.1) at e) m
]

pub NamesKeys→IsClosed : (d : Dict (List String)) → NamesKeys (keys d) d → IsClosed d
NamesKeys→IsClosed d h a b n = NamesKeys-get (keys d) d a b n.needs h n.found n.listed

-- If every dependency names a step, the depth-first search returns for dependencies with no cycle
-- and only for those, and otherwise reports a cycle, with a step that does depend on itself; it
-- fails no lookup and ends.
pub validate_dependency_graph_decides :
    (d : Dict (List String))
    → IsClosed d
    → ((c : Colours) × (validate_dependency_graph d ≡ done c) × Acyclic d)
      ⊎ ((validate_dependency_graph d ≡ cycle) × ((x : String) × Reaches d x x))
validate_dependency_graph_decides d closed =
    verdict (validate_dependency_graph d) refl (validate_dependency_graph-Ends d closed)
  where
    acyclic : (c : Colours) → validate_dependency_graph d ≡ done c → Acyclic d
    acyclic c e a r =
        let (b, n, rest) = Reaches-first r in
        Acc-not-Reaches (validate_dependency_graph-Acc d c e a (In-keys-get a d n.found)) r

    verdict :
        (v : Visit)
        → validate_dependency_graph d ≡ v
        → Ends d [] v
        → ((c : Colours) × (validate_dependency_graph d ≡ done c) × Acyclic d)
          ⊎ ((validate_dependency_graph d ≡ cycle) × ((x : String) × Reaches d x x))
    verdict (done c) e h = inl (c, e, acyclic c e)
    verdict cycle e h = inr (e, h)
    verdict key_error e h = elim h [ ]
    verdict out_of_fuel e h = elim h [ ]
