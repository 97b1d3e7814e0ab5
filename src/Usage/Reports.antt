-- ===== src/Usage/Reports.antt =====
-- The report that a day nears the token quota: `record` of server/src/application/services/
-- usage.py, over the requests of many users.
use juris_ai.Base.{
  ℕ, ◌+◌, ◌≤◌, String, true, ◌≡◌, refl, ap, inl, inr, List, [], ◌∷◌, Bool-cases, arith,
}
use juris_ai.Usage.Buckets.{Database}
use juris_ai.Usage.Service.{RateLimit, crosses}
use juris_ai.Usage.Limits.{Event, one_if, serve, serve_all}
use juris_ai.Usage.Changes.{total_of, reports, same, more, serve-Change}

module _ (limits : RateLimit) where
  unfoldable pub reported : String → ℕ → List Event → Database → ℕ
  unfolding reports serve
  reported user_id window [] db = 0
  reported user_id window (e ∷ es) db =
      reports limits user_id window e db + reported user_id window es (serve limits e db)

  -- The threshold stays reached.
  abbrev pub IsMonotone : Type 0
  IsMonotone = (m n : ℕ) → m ≤ n → limits.reports_at m ≡ true → limits.reports_at n ≡ true

  crosses-steps :
      IsMonotone
      → (m n : ℕ)
      → one_if (crosses limits m (m + n)) + one_if (limits.reports_at m)
        ≡ one_if (limits.reports_at (m + n))
  unfolding crosses
  crosses-steps mono m n = elim (Bool-cases (limits.reports_at m)) [
    | inl e ↦ rw (e, mono m (m + n) (omega arith) e, crosses) refl
    | inr e ↦ elim (Bool-cases (limits.reports_at (m + n))) [
      | inl f ↦ rw (e, f, crosses) refl
      | inr f ↦ rw (e, f, crosses) refl
    ]
  ]

  -- If the threshold stays reached when tokens are added, then over any calls of check_and_enforce
  -- and record the day of a user is reported once if it gets from below the threshold to the
  -- threshold, and never otherwise.
  pub crossing_reported :
      (user_id : String) (window : ℕ) (es : List Event) (db : Database)
      → IsMonotone
      → reported user_id window es db + one_if (limits.reports_at (total_of user_id window db))
        ≡ one_if (limits.reports_at (total_of user_id window (serve_all limits es db)))
  unfolding reported serve_all
  crossing_reported user_id window [] db mono = omega arith
  crossing_reported user_id window (e ∷ es) db mono =
      let rest = crossing_reported user_id window es (serve limits e db) mono in
      elim (serve-Change limits user_id window e db) [
        | same p q ↦
            let kept = ap (λ n. one_if (limits.reports_at n)) p in omega (arith, rest, q, kept)
        | more n p q ↦
            let now = ap (λ m. one_if (limits.reports_at m)) p in
            omega (arith, rest, q, now, crosses-steps mono (total_of user_id window db) n)
      ]
