-- ===== src/Usage/Limits.antt =====
-- What the limits of server/src/application/services/usage.py come to over the requests of many
-- users: the rate, the day's total and the report of a day that nears its quota.
use juris_ai.Base.{
  ℕ, ◌+◌, ◌≤◌, String, Bool, true, false, ◌≡◌, refl, sym, ap, ◌∙◌, ◌⊎◌, inl, inr, List, [], ◌∷◌,
  if◌then◌else◌, Bool-cases, Option-cases, arith,
}
use juris_ai.Base.Dict.{get}
use juris_ai.Base.Result.{Result}
use juris_ai.Usage.Buckets.{
  Counts, Database, plus, same_bucket, same_bucket→≡, upsert, counts_of, minute_bucket, day_bucket,
  one_request, used_tokens, counts_of-upsert,
}
use juris_ai.Usage.Service.{
  RateLimit, LimitError, minute_window, day_window, check_and_enforce, record_usage,
}
use juris_ai.Usage.Effects.{
  is_ok, check_and_enforce-counts, record_usage-skips, record_usage-known, record_usage-adds,
  enforce-ok, added, counts_write,
}

-- The calls that reach the service: before a request, and after it.
pub data Event : Type 0 where
  asks : (now : ℕ) (user_id : String) → Event
  records : (now : ℕ) (user_id request_id : String) (input output : ℕ) (commits : Bool) → Event

abbrev pub one_if : Bool → ℕ
one_if true = 1
one_if false = 0

module _ (limits : RateLimit) where
  unfoldable pub serve : Event → Database → Database
  unfolding check_and_enforce record_usage
  serve (asks now user_id) db = (check_and_enforce limits now user_id db).1
  serve (records now user_id request_id input output commits) db =
      (record_usage limits now user_id request_id input output commits db).1

  unfoldable pub serve_all : List Event → Database → Database
  unfolding serve
  serve_all [] db = db
  serve_all (e ∷ es) db = serve_all es (serve e db)

  -- The requests of a user in a minute that are let through.
  unfoldable pub admits : String → ℕ → Event → Database → ℕ
  unfolding check_and_enforce
  admits user_id window (asks now asker) db =
      if same_bucket (minute_bucket asker (minute_window now)) (minute_bucket user_id window)
      then one_if (is_ok (check_and_enforce limits now asker db).0)
      else 0
  admits user_id window (records now asker request_id input output commits) db = 0

  unfoldable pub admitted : String → ℕ → List Event → Database → ℕ
  unfolding admits serve
  admitted user_id window [] db = 0
  admitted user_id window (e ∷ es) db =
      admits user_id window e db + admitted user_id window es (serve e db)

  abbrev requests_of : String → ℕ → Database → ℕ
  requests_of user_id window db =
      (counts_of (minute_bucket user_id window) db.buckets).request_count

  minute-serve_record :
      (user_id : String) (window : ℕ) (now : ℕ) (asker request_id : String) (input output : ℕ)
      (commits : Bool) (db : Database)
      → requests_of user_id window (serve (records now asker request_id input output commits) db)
        ≡ requests_of user_id window db
  unfolding serve added
  minute-serve_record user_id window now asker request_id input output commits db =
      elim (Bool-cases (counts_write limits input output commits)) [
        | inr z ↦
            ap (λ (z : Bool × Database). requests_of user_id window z.1)
              (record_usage-skips limits now asker request_id input output commits db z)
        | inl z ↦ elim (Option-cases (get request_id db.requests)) [
          | inr (r, f) ↦
              ap (λ (z : Bool × Database). requests_of user_id window z.1)
                (record_usage-known limits now asker request_id input output commits db r f)
          | inl f ↦
              ap (λ (z : Bool × Database). requests_of user_id window z.1)
                (record_usage-adds limits now asker request_id input output commits db z f)
              ∙ ap (λ (n : Counts). n.request_count)
                  (counts_of-upsert (minute_bucket user_id window)
                    (day_bucket asker (day_window now)) (used_tokens input output) db.buckets)
        ]
      ]

  -- A check counts, and passes only within the limit.
  record Asked (n before after : ℕ) : Type 0 where
    grows : before + n ≤ after
    passes : (n ≡ 0) ⊎ ((n ≡ 1) × (after ≤ limits.requests_per_minute))

  admits-Asked :
      (user_id : String) (window : ℕ) (e : Event) (db : Database)
      → limits.enabled ≡ true
      → Asked
          (admits user_id window e db)
          (requests_of user_id window db)
          (requests_of user_id window (serve e db))
  unfolding serve admits
  admits-Asked user_id window (records now asker request_id input output commits) db on =
      let e = minute-serve_record user_id window now asker request_id input output commits db in
      record { grows = omega arith; passes = inl refl }
  admits-Asked user_id window (asks now asker) db on =
      let k = minute_bucket user_id window in
      let j = minute_bucket asker (minute_window now) in
      let shape = check_and_enforce-counts limits now asker db on in
      let here = counts_of-upsert k j one_request db.buckets in
      let is =
        ap (λ (z : Result LimitError (Unit {0}) × Database). requests_of user_id window z.1)
          shape in
      elim (Bool-cases (same_bucket j k)) [
        | inr f ↦
            let n : admits user_id window (asks now asker) db ≡ 0 = rw (f, admits) refl in
            let same : counts_of k (upsert j one_request db.buckets) ≡ counts_of k db.buckets =
              cc (here, f) in
            let kept = is ∙ ap (λ (z : Counts). z.request_count) same in
            record { grows = omega arith; passes = inl n }
        | inl f ↦
            let same : counts_of k (upsert j one_request db.buckets)
                ≡ plus (counts_of k db.buckets) one_request =
              cc (here, f) in
            let kept = is ∙ ap (λ (z : Counts). z.request_count) same in
            elim (Bool-cases (is_ok (check_and_enforce limits now asker db).0)) [
              | inr b ↦
                  let n : admits user_id window (asks now asker) db ≡ 0 = rw (f, b, admits) refl in
                  record { grows = omega arith; passes = inl n }
              | inl b ↦
                  let n : admits user_id window (asks now asker) db ≡ 1 = rw (f, b, admits) refl in
                  let after : Database = record db { buckets = upsert j one_request db.buckets } in
                  let passed =
                    enforce-ok limits now asker (counts_of j after.buckets).request_count after (
                      sym (ap (λ (z : Result LimitError (Unit {0}) × Database). is_ok z.0) shape)
                      ∙ b) in
                  let equal =
                    ap (λ z. (counts_of z (upsert j one_request db.buckets)).request_count)
                      (same_bucket→≡ j k f) in
                  record { grows = omega arith; passes = inr (n, omega arith) }
            ]
      ]

  admitted_within :
      (user_id : String) (window : ℕ) (es : List Event) (db : Database)
      → limits.enabled ≡ true
      → (admitted user_id window es db ≡ 0)
        ⊎ (requests_of user_id window db + admitted user_id window es db
            ≤ limits.requests_per_minute)
  unfolding admitted
  admitted_within user_id window [] db on = inl refl
  admitted_within user_id window (e ∷ es) db on =
      let first = admits-Asked user_id window e db on in
      elim (admitted_within user_id window es (serve e db) on) [
        | inr rest ↦ inr (omega (arith, rest, first.grows))
        | inl none_left ↦ elim first.passes [
          | inl n ↦ inl (omega (arith, n, none_left))
          | inr (n, fits) ↦ inr (omega (arith, n, none_left, fits, first.grows))
        ]
      ]

  -- A bucket of the table admits no more than the limit.
  pub admitted_le :
      (user_id : String) (window : ℕ) (es : List Event) (db : Database)
      → limits.enabled ≡ true
      → admitted user_id window es db ≤ limits.requests_per_minute
  admitted_le user_id window es db on = elim (admitted_within user_id window es db on) [
    | inl e ↦ omega (arith, e)
    | inr h ↦ omega (arith, h)
  ]
