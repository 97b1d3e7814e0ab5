-- ===== src/Base/Dict.antt =====
-- Python's `dict` with text keys: an association list in the order of first insertion.
use Prim.Native.String.{String}
use mathlib.Core.Path.{◌≡◌, refl, sym}
use mathlib.Core.Logic.{◌⊎◌, inl, inr}
use mathlib.Core.Option.{Option, none, some}
use mathlib.Core.List.{List, [], ◌∷◌}
use native.Mathlib.Omega.{arith}
use text.Mathlib.TextEquality.{eq_iff}
use juris_ai.Base.Tests.{◌==◌, if◌then◌else◌, Bool-cases, String-cases, ≡→==}
use juris_ai.Base.Lists.{In}

abbrev pub Dict {ℓ} : Type ℓ → Type ℓ
Dict V = List (String × V)

module _ {ℓ} {V : Type ℓ} where
  -- d.get(k)
  abbrev pub get : String → Dict V → Option V
  get k [] = none
  get k ((j, v) ∷ d) = if j == k then some v else get k d

  -- d[k] = v, which keeps the place of a key that is there
  abbrev pub put : String → V → Dict V → Dict V
  put k v [] = (k, v) ∷ []
  put k v ((j, w) ∷ d) = if j == k then (j, v) ∷ d else (j, w) ∷ put k v d

  -- iteration over a dict
  abbrev pub keys : Dict V → List String
  keys [] = []
  keys ((j, v) ∷ d) = j ∷ keys d

  pub get-put :
      (k j : String) (v : V) (d : Dict V) → get j (put k v d) ≡ (if k == j then some v else get j d)
  get-put k j v [] = refl
  get-put k j v ((i, w) ∷ d) = ground (arith, eq_iff i k, eq_iff i j, eq_iff k j, get-put k j v d)

  pub get-keys : (k : String) (d : Dict V) → In k (keys d) → (v : V) × (get k d ≡ some v)
  get-keys k [] m = elim m [ ]
  get-keys k ((j, v) ∷ d) (inl p) = (v, rw (≡→== j k (sym p)))
  get-keys k ((j, v) ∷ d) (inr m) = elim (Bool-cases (j == k)) [
    | inl e ↦ (v, rw e)
    | inr e ↦ let (w, q) = get-keys k d m in (w, rw e q)
  ]

  pub In-keys-get : (k : String) (d : Dict V) {v : V} → get k d ≡ some v → In k (keys d)
  In-keys-get k [] e = cc
  In-keys-get k ((j, w) ∷ d) e = elim (String-cases j k) [
    | inl p ↦ inl (sym p)
    | inr q ↦ inr (In-keys-get k d (rw q.1 at e))
  ]

  -- A key that is there stays there.
  pub put_keeps :
      (a b : String) (r : V) (found : Dict V)
      → (a ≡ b) ⊎ ((s : V) × (get b found ≡ some s))
      → (s : V) × (get b (put a r found) ≡ some s)
  put_keeps a b r found (inl p) = (r, cc (get-put a b r found, ≡→== a b p))
  put_keeps a b r found (inr (s, e)) = elim (Bool-cases (a == b)) [
    | inl same ↦ (r, cc (get-put a b r found, same))
    | inr differ ↦ (s, cc (get-put a b r found, differ))
  ]
