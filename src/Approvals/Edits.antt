-- ===== src/Approvals/Edits.antt =====
-- The parameters of an approved action: approved_parameters of server/src/application/authorization/
-- approval_lifecycle/verifier.py.
use juris_ai.Base.{
  String, ◌≡◌, inl, inr, refl, ap, ◌∙◌, Option, none, some, [], ◌∷◌, ◌==◌, Bool-cases, Option-cases,
  if◌then◌else◌,
}
use juris_ai.Base.Dict.{Dict, get, put, get-put}
use juris_ai.Approvals.Verifier.{merge, or_empty, approved_parameters}

module _ {Json : Type 0} where
  -- A value of the edits, else the value proposed.
  abbrev pub or_else : Option Json → Option Json → Option Json
  or_else none proposed = proposed
  or_else (some v) proposed = some v

  -- What the edits say of a key, the last of them if there are several.
  unfoldable pub edited_value : String → Dict Json → Option Json
  edited_value k [] = none
  edited_value k ((j, v) ∷ edits) = or_else (edited_value k edits) (if j == k then some v else none)

  unfoldable pub edits_of : Option (Dict Json) → Dict Json
  edits_of none = []
  edits_of (some edits) = edits

  -- What the reviewer approved for a key: the value of the edit, else the value proposed.
  unfoldable pub approved_value : Dict Json → Option (Dict Json) → String → Option Json
  unfolding edited_value edits_of
  approved_value proposed edits k = or_else (edited_value k (edits_of edits)) (get k proposed)

  get-merge_edits :
      (k : String) (proposed edits : Dict Json)
      → get k (merge proposed edits) ≡ or_else (edited_value k edits) (get k proposed)
  unfolding merge edited_value
  get-merge_edits k proposed [] = refl
  get-merge_edits k proposed ((j, v) ∷ edits) =
      let h = get-merge_edits k (put j v proposed) edits in
      let here = get-put j k v proposed in
      elim (Option-cases (edited_value k edits)) [
        | inr (w, e) ↦ rw e (h ∙ ap (λ o. or_else o (get k (put j v proposed))) e)
        | inl e ↦ elim (Bool-cases (j == k)) [
          | inl same ↦ rw (e, same) (cc (h, e, here, same))
          | inr differ ↦ rw (e, differ) (cc (h, e, here, differ))
        ]
      ]

  -- The parameters that run hold for each key what the reviewer approved.
  pub get-approved_value :
      (k : String) (proposed : Dict Json) (edits : Option (Dict Json))
      → get k (approved_parameters proposed edits) ≡ approved_value proposed edits k
  unfolding approved_parameters or_empty approved_value edits_of
  get-approved_value k proposed none = get-merge_edits k proposed []
  get-approved_value k proposed (some edits) = get-merge_edits k proposed edits
