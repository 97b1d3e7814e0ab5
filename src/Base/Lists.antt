-- ===== src/Base/Lists.antt =====
-- Lists measured by native numbers, and sets of texts as lists: Python's `set` is only asked for
-- membership, so the order of its elements is not modelled.
use Prim.Native.Nat.{ℕ, zero, suc, ◌+◌, ◌≤◌, ◌<◌}
use Prim.Native.String.{String}
use mathlib.Core.Path.{◌≡◌, refl, sym, ◌∙◌, subst}
use mathlib.Core.Logic.{◌≢◌, ◌⊎◌, inl, inr}
use mathlib.Core.Bool.{Bool, true, false}
use mathlib.Core.List.{List, [], ◌∷◌, ◌++◌}
use native.Mathlib.Omega.{arith}
use juris_ai.Base.Tests.{◌==◌, if◌then◌else◌, Bool-cases, ≡→==, ≢→==, String-cases}

module _ {ℓ} {A : Type ℓ} where
  abbrev pub length : List A → ℕ
  length [] = 0
  length (x ∷ xs) = suc (length xs)

  -- Every element satisfies the predicate.
  abbrev pub All {κ} : (A → Type κ) → List A → Type κ
  All P [] = Unit
  All P (x ∷ xs) = P x × All P xs

  pub length-append : (xs ys : List A) → length (xs ++ ys) ≡ length xs + length ys
  length-append [] ys = omega arith
  length-append (x ∷ xs) ys = omega (arith, length-append xs ys)

-- `In` and its laws stand at the lowest level, where its empty case is `⊥`.
module _ {A : Type 0} where
  -- `In a xs`: the value is an element, with its position.
  abbrev pub In : A → List A → Type 0
  In a [] = ⊥
  In a (x ∷ xs) = (a ≡ x) ⊎ In a xs

  pub In-append_left : (a : A) (xs ys : List A) → In a xs → In a (xs ++ ys)
  In-append_left a [] ys m = elim m [ ]
  In-append_left a (x ∷ xs) ys (inl e) = inl e
  In-append_left a (x ∷ xs) ys (inr m) = inr (In-append_left a xs ys m)

  pub In-append_right : (a : A) (xs ys : List A) → In a ys → In a (xs ++ ys)
  In-append_right a [] ys m = m
  In-append_right a (x ∷ xs) ys m = inr (In-append_right a xs ys m)

  pub All-at {κ} : (P : A → Type κ) (a : A) (xs : List A) → All P xs → In a xs → P a
  All-at P a [] h m = elim m [ ]
  All-at P a (x ∷ xs) h (inl e) = subst P (sym e) h.0
  All-at P a (x ∷ xs) h (inr m) = All-at P a xs h.1 m

  pub All-of {κ} : (P : A → Type κ) (xs : List A) → ((a : A) → In a xs → P a) → All P xs
  All-of P [] h = tt
  All-of P (x ∷ xs) h = (h x (inl refl), All-of P xs (λ a m. h a (inr m)))

-- `x in s`
abbrev pub elem : String → List String → Bool
elem a [] = false
elem a (x ∷ xs) = if a == x then true else elem a xs

pub elem→In : (a : String) (xs : List String) → elem a xs ≡ true → In a xs
elem→In a [] e = cc
elem→In a (x ∷ xs) e = elim (String-cases a x) [
  | inl p ↦ inl p
  | inr q ↦ inr (elem→In a xs (rw q.1 at e))
]

pub In→elem : (a : String) (xs : List String) → In a xs → elem a xs ≡ true
In→elem a [] m = elim m [ ]
In→elem a (x ∷ xs) (inl p) = rw (≡→== a x p)
In→elem a (x ∷ xs) (inr m) = elim (Bool-cases (a == x)) [
  | inl e ↦ rw e
  | inr e ↦ rw e (In→elem a xs m)
]

pub not-In→elem : (a : String) (xs : List String) → ¬ In a xs → elem a xs ≡ false
not-In→elem a xs h = elim (Bool-cases (elem a xs)) [
  | inl e ↦ absurd (h (elem→In a xs e))
  | inr e ↦ e
]

pub elem-false : (a : String) (xs : List String) → elem a xs ≡ false → ¬ In a xs
elem-false a xs e m = cc (In→elem a xs m)

-- `s - {x}`
abbrev pub without : String → List String → List String
without a [] = []
without a (x ∷ xs) = if a == x then without a xs else x ∷ without a xs

pub without_absent : (a : String) (xs : List String) → ¬ In a xs → without a xs ≡ xs
without_absent a [] h = refl
without_absent a (x ∷ xs) h =
    rw (≢→== a x (λ p. h (inl p))) (cc (without_absent a xs (λ m. h (inr m))))

pub In-without : (b a : String) (xs : List String) → b ≢ a → In b xs → In b (without a xs)
In-without b a [] h m = elim m [ ]
In-without b a (x ∷ xs) h (inl p) = rw (≢→== a x (λ q. h (p ∙ sym q))) (inl p)
In-without b a (x ∷ xs) h (inr m) = elim (Bool-cases (a == x)) [
  | inl e ↦ rw e (In-without b a xs h m)
  | inr e ↦ rw e (inr (In-without b a xs h m))
]

pub length-without_le : (a : String) (xs : List String) → length (without a xs) ≤ length xs
length-without_le a [] = omega arith
length-without_le a (x ∷ xs) = ground (arith, length-without_le a xs)

pub length-without : (a : String) (xs : List String) → In a xs → length (without a xs) < length xs
length-without a [] m = elim m [ ]
length-without a (x ∷ xs) (inl p) = rw (≡→== a x p) (omega (arith, length-without_le a xs))
length-without a (x ∷ xs) (inr m) = ground (arith, length-without a xs m)

-- No text occurs twice.
abbrev pub Distinct : List String → Type 0
Distinct [] = Unit
Distinct (x ∷ xs) = (¬ In x xs) × Distinct xs

-- Distinct elements of a list are no more than its elements.
pub Distinct-length-le :
    (xs ys : List String) → Distinct xs → ((a : String) → In a xs → In a ys) → length xs ≤ length ys
Distinct-length-le [] ys d sub = omega arith
Distinct-length-le (x ∷ xs) ys d sub =
    let shorter =
      Distinct-length-le xs (without x ys) d.1
        (λ a m. In-without a x ys (λ e. d.0 (subst (λ z. In z xs) e m)) (sub a (inr m))) in
    omega (arith, shorter, length-without x ys (sub x (inl refl)))

-- len(set(xs)), by the set itself
abbrev pub to_set : List String → List String
to_set [] = []
to_set (x ∷ xs) = if elem x xs then to_set xs else x ∷ to_set xs

pub length-to_set_le : (xs : List String) → length (to_set xs) ≤ length xs
length-to_set_le [] = omega arith
length-to_set_le (x ∷ xs) = ground (arith, length-to_set_le xs)

-- len(xs) == len(set(xs)) exactly when no text occurs twice.
pub length-to_set→Distinct : (xs : List String) → length (to_set xs) ≡ length xs → Distinct xs
length-to_set→Distinct [] h = tt
length-to_set→Distinct (x ∷ xs) h = elim (Bool-cases (elem x xs)) [
  | inl e ↦
      let h' : length (to_set xs) ≡ suc (length xs) = rw e at h in
      absurd (omega (arith, length-to_set_le xs))
  | inr e ↦
      let h' : suc (length (to_set xs)) ≡ suc (length xs) = rw e at h in
      (elem-false x xs e, length-to_set→Distinct xs (omega arith))
]

pub Distinct→length-to_set : (xs : List String) → Distinct xs → length (to_set xs) ≡ length xs
Distinct→length-to_set [] d = refl
Distinct→length-to_set (x ∷ xs) d =
    rw (not-In→elem x xs d.0) (omega (arith, Distinct→length-to_set xs d.1))

-- xs[:n]
module _ {ℓ} {A : Type ℓ} where
  abbrev pub take : ℕ → List A → List A
  take zero xs = []
  take (suc n) [] = []
  take (suc n) (x ∷ xs) = x ∷ take n xs

  pub length-take_le : (n : ℕ) (xs : List A) → length (take n xs) ≤ n
  length-take_le zero xs = omega arith
  length-take_le (suc n) [] = omega arith
  length-take_le (suc n) (x ∷ xs) = omega (arith, length-take_le n xs)

module _ {ℓ} {A : Type ℓ} where
  abbrev pub replicate : ℕ → A → List A
  replicate zero a = []
  replicate (suc n) a = a ∷ replicate n a
