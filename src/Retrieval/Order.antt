-- ===== src/Retrieval/Order.antt =====
-- The dicts of the fusion in server/src/rag/hybrid_retriever.py, and their order by score.
use juris_ai.Base.{
  String, true, false, ◌≡◌, refl, sym, ap, ◌∙◌, subst, ◌⊎◌, inl, inr, ◌↔◌, some, List, [], ◌∷◌, In,
  All, Distinct, ≢→==, ==_refl, Bool-cases, String-cases, ◌==◌, ≡→==,
}
use juris_ai.Base.Dict.{Dict, get, put, keys}
use juris_ai.Retrieval.Fusion.{Floats, insert_score, sort_scores}

module _ {V : Type 0} where
  In-keys-put→ :
      (j k : String) (v : V) (d : Dict V) → In j (keys (put k v d)) → (j ≡ k) ⊎ In j (keys d)
  In-keys-put→ j k v [] (inl p) = inl p
  In-keys-put→ j k v [] (inr m) = elim m [ ]
  In-keys-put→ j k v ((i, w) ∷ d) m = elim (Bool-cases (i == k)) [
    | inl e ↦ inr (rw e at m)
    | inr e ↦ elim (rw e at m) [
      | inl p ↦ inr (inl p)
      | inr n ↦ elim (In-keys-put→ j k v d n) [ inl q ↦ inl q | inr q ↦ inr (inr q) ]
    ]
  ]

  →In-keys-put :
      (j k : String) (v : V) (d : Dict V) → (j ≡ k) ⊎ In j (keys d) → In j (keys (put k v d))
  →In-keys-put j k v [] (inl p) = inl p
  →In-keys-put j k v [] (inr m) = elim m [ ]
  →In-keys-put j k v ((i, w) ∷ d) h = elim (String-cases i k) [
    | inl p ↦ rw (≡→== i k p) (elim h [ inl q ↦ inl (q ∙ sym p) | inr m ↦ m ])
    | inr (n, e) ↦ rw e (elim h [
      | inl q ↦ inr (→In-keys-put j k v d (inl q))
      | inr m ↦ elim m [ inl q ↦ inl q | inr l ↦ inr (→In-keys-put j k v d (inr l)) ]
    ])
  ]

  pub keys-put :
      (j k : String) (v : V) (d : Dict V) → In j (keys (put k v d)) ↔ ((j ≡ k) ⊎ In j (keys d))
  keys-put j k v d = (In-keys-put→ j k v d, →In-keys-put j k v d)

  pub put-Distinct :
      (k : String) (v : V) (d : Dict V) → Distinct (keys d) → Distinct (keys (put k v d))
  put-Distinct k v [] h = (λ m. elim m [ ], tt)
  put-Distinct k v ((i, w) ∷ d) h = elim (String-cases i k) [
    | inl p ↦ rw (≡→== i k p) h
    | inr (n, e) ↦
        rw e (
          λ m. elim (In-keys-put→ i k v d m) [ inl p ↦ n p | inr l ↦ h.0 l ],
          put-Distinct k v d h.1,
        )
  ]

module _ {F : Type 0} (fl : Floats F) where
  In-insert_score→ :
      (j : String) (x : String × F) (ys : List (String × F))
      → In j (keys (insert_score fl x ys))
      → (j ≡ x.0) ⊎ In j (keys ys)
  unfolding insert_score
  In-insert_score→ j x [] (inl p) = inl p
  In-insert_score→ j x [] (inr m) = elim m [ ]
  In-insert_score→ j x (y ∷ ys) m = elim (Bool-cases (fl.less x.1 y.1)) [
    | inl e ↦ elim (rw (e, insert_score) at m) [
      | inl p ↦ inr (inl p)
      | inr n ↦ elim (In-insert_score→ j x ys n) [ inl q ↦ inl q | inr q ↦ inr (inr q) ]
    ]
    | inr e ↦ elim (rw (e, insert_score) at m) [ inl p ↦ inl p | inr n ↦ inr n ]
  ]

  →In-insert_score :
      (j : String) (x : String × F) (ys : List (String × F))
      → (j ≡ x.0) ⊎ In j (keys ys)
      → In j (keys (insert_score fl x ys))
  unfolding insert_score
  →In-insert_score j x [] (inl p) = inl p
  →In-insert_score j x [] (inr m) = elim m [ ]
  →In-insert_score j x (y ∷ ys) h = elim (Bool-cases (fl.less x.1 y.1)) [
    | inl e ↦
        rw (e, insert_score)
          (elim h [
            | inl q ↦ inr (→In-insert_score j x ys (inl q))
            | inr m ↦ elim m [ inl q ↦ inl q | inr l ↦ inr (→In-insert_score j x ys (inr l)) ]
          ])
    | inr e ↦ rw (e, insert_score) (elim h [ inl q ↦ inl q | inr m ↦ inr m ])
  ]

  insert_score-Distinct :
      (x : String × F) (ys : List (String × F))
      → (¬ In x.0 (keys ys))
      → Distinct (keys ys)
      → Distinct (keys (insert_score fl x ys))
  unfolding insert_score
  insert_score-Distinct x [] new h = (λ m. elim m [ ], tt)
  insert_score-Distinct x (y ∷ ys) new h = elim (Bool-cases (fl.less x.1 y.1)) [
    | inl e ↦
        rw (e, insert_score)
          (
            λ m. elim (In-insert_score→ y.0 x ys m) [ inl p ↦ new (inl (sym p)) | inr l ↦ h.0 l ],
            insert_score-Distinct x ys (λ m. new (inr m)) h.1,
          )
    | inr e ↦ rw (e, insert_score) (new, h)
  ]

  pub keys-sort_scores :
      (j : String) (d : List (String × F)) → In j (keys (sort_scores fl d)) ↔ In j (keys d)
  unfolding sort_scores
  keys-sort_scores j [] = (λ m. m, λ m. m)
  keys-sort_scores j (x ∷ d) =
      let rest = keys-sort_scores j d in
      (
        λ m. elim (In-insert_score→ j x (sort_scores fl d) m) [
          | inl p ↦ inl p
          | inr n ↦ inr (rest.0 n)
        ],
        λ m.
            →In-insert_score j x (sort_scores fl d)
              (elim m [ inl p ↦ inl p | inr n ↦ inr (rest.1 n) ]),
      )

  pub sort_scores-Distinct :
      (d : List (String × F)) → Distinct (keys d) → Distinct (keys (sort_scores fl d))
  unfolding sort_scores
  sort_scores-Distinct [] h = tt
  sort_scores-Distinct (x ∷ d) h =
      insert_score-Distinct x (sort_scores fl d) (λ m. h.0 ((keys-sort_scores x.0 d).0 m))
        (sort_scores-Distinct d h.1)

  -- The next score is not higher.
  abbrev pub Follows : F → List (String × F) → Type 0
  Follows a [] = Unit
  Follows a (y ∷ ys) = fl.less a y.1 ≡ false

  abbrev pub IsSorted : List (String × F) → Type 0
  IsSorted [] = Unit
  IsSorted (x ∷ xs) = Follows x.1 xs × IsSorted xs

  -- Of two floats, at most one is less than the other.
  abbrev pub IsAsymmetric : Type 0
  IsAsymmetric = (a b : F) → fl.less a b ≡ true → fl.less b a ≡ false

  insert_score-Follows :
      (a : F) (x : String × F) (ys : List (String × F))
      → fl.less a x.1 ≡ false
      → Follows a ys
      → Follows a (insert_score fl x ys)
  unfolding insert_score
  insert_score-Follows a x [] p h = p
  insert_score-Follows a x (y ∷ ys) p h = elim (Bool-cases (fl.less x.1 y.1)) [
    | inl e ↦ rw (e, insert_score) h
    | inr e ↦ rw (e, insert_score) p
  ]

  insert_score-IsSorted :
      IsAsymmetric
      → (x : String × F) (ys : List (String × F)) → IsSorted ys
      → IsSorted (insert_score fl x ys)
  unfolding insert_score
  insert_score-IsSorted asym x [] h = (tt, tt)
  insert_score-IsSorted asym x (y ∷ ys) h = elim (Bool-cases (fl.less x.1 y.1)) [
    | inl e ↦
        rw (e, insert_score)
          (insert_score-Follows y.1 x ys (asym x.1 y.1 e) h.0, insert_score-IsSorted asym x ys h.1)
    | inr e ↦ rw (e, insert_score) (e, h)
  ]

  pub sort_scores-IsSorted : IsAsymmetric → (d : List (String × F)) → IsSorted (sort_scores fl d)
  unfolding sort_scores
  sort_scores-IsSorted asym [] = tt
  sort_scores-IsSorted asym (x ∷ d) =
      insert_score-IsSorted asym x (sort_scores fl d) (sort_scores-IsSorted asym d)

  insert_score-All :
      (P : String × F → Type 0) (x : String × F) (ys : List (String × F))
      → P x
      → All P ys
      → All P (insert_score fl x ys)
  unfolding insert_score
  insert_score-All P x [] p h = (p, tt)
  insert_score-All P x (y ∷ ys) p h = elim (Bool-cases (fl.less x.1 y.1)) [
    | inl e ↦ rw (e, insert_score) (h.0, insert_score-All P x ys p h.1)
    | inr e ↦ rw (e, insert_score) (p, h)
  ]

  pub sort_scores-All :
      (P : String × F → Type 0) (d : List (String × F)) → All P d → All P (sort_scores fl d)
  unfolding sort_scores
  sort_scores-All P [] h = tt
  sort_scores-All P (x ∷ d) h =
      insert_score-All P x (sort_scores fl d) h.0 (sort_scores-All P d h.1)

-- Each entry of a dict is what its key finds.
abbrev pub Finds : {V : Type 0} → Dict V → String × V → Type 0
Finds d x = get x.0 d ≡ some x.1

All-step :
    {A : Type 0} (P Q : A → Type 0) (xs : List A)
    → ((a : A) → In a xs → P a → Q a)
    → All P xs
    → All Q xs
All-step P Q [] f h = tt
All-step P Q (x ∷ xs) f h = (f x (inl refl) h.0, All-step P Q xs (λ a m p. f a (inr m) p) h.1)

In-entry : {V : Type 0} (x : String × V) (d : Dict V) → In x d → In x.0 (keys d)
In-entry x [] m = elim m [ ]
In-entry x (y ∷ d) (inl p) = inl (ap (λ z. z.0) p)
In-entry x (y ∷ d) (inr m) = inr (In-entry x d m)

pub entries-Finds : {V : Type 0} (d : Dict V) → Distinct (keys d) → All (Finds d) d
entries-Finds [] h = tt
entries-Finds ((k, v) ∷ d) h = (
  rw (==_refl k) refl,
  All-step (Finds d) (Finds ((k, v) ∷ d)) d
      (λ x m p. rw (≢→== k x.0 (λ q. h.0 (subst (λ z. In z (keys d)) (sym q) (In-entry x d m)))) p)
      (entries-Finds d h.1),
)
