-- ===== src/Usage/Changes.antt =====
-- How one call of server/src/application/services/usage.py changes the day of a user.
use juris_ai.Base.{
  ℕ, ◌+◌, ◌-◌, String, Bool, false, ◌≡◌, refl, ap, ◌∙◌, inl, inr, if◌then◌else◌, Bool-cases,
  Option-cases, arith,
}
use juris_ai.Base.Dict.{get}
use juris_ai.Base.Result.{Result}
use juris_ai.Usage.Buckets.{
  Bucket, Database, plus, same_bucket, same_bucket→≡, upsert, counts_of, tokens, minute_bucket,
  day_bucket, one_request, used_tokens, counts_of-upsert,
}
use juris_ai.Usage.Service.{
  RateLimit, LimitError, minute_window, day_window, check_and_enforce, crosses, record_usage,
}
use juris_ai.Usage.Effects.{
  check_and_enforce-counts, record_usage-skips, record_usage-known, record_usage-adds, added,
  counts_write,
}
use juris_ai.Usage.Limits.{Event, asks, records, one_if, serve}

abbrev pub total_of : String → ℕ → Database → ℕ
total_of user_id window db = tokens (counts_of (day_bucket user_id window) db.buckets)

-- A write adds to the day of its user.
pub total_of-added :
    (user_id : String) (window now : ℕ) (asker : String) (input output : ℕ) (db : Database)
    → tokens (counts_of (day_bucket user_id window) (added now asker input output db)) ≡ (
        if same_bucket (day_bucket asker (day_window now)) (day_bucket user_id window)
        then total_of user_id window db + (input + output)
        else total_of user_id window db)
unfolding added
total_of-added user_id window now asker input output db =
    let k = day_bucket user_id window in
    let j = day_bucket asker (day_window now) in
    let here = counts_of-upsert k j (used_tokens input output) db.buckets in
    elim (Bool-cases (same_bucket j k)) [
      | inl e ↦
          let to : counts_of k (upsert j (used_tokens input output) db.buckets)
              ≡ plus (counts_of k db.buckets) (used_tokens input output) =
            cc (here, e) in
          rw e (let t = ap tokens to in omega (arith, t))
      | inr e ↦
          let to : counts_of k (upsert j (used_tokens input output) db.buckets)
              ≡ counts_of k db.buckets =
            cc (here, e) in
          rw e (ap tokens to)
    ]

abbrev pub Out : Type 0
Out = Bool × Database

module _ (limits : RateLimit) where
  -- The reports that a user's day crossed the threshold.
  unfoldable pub reports : String → ℕ → Event → Database → ℕ
  reports user_id window (asks now asker) db = 0
  reports user_id window (records now asker request_id input output commits) db =
      if same_bucket (day_bucket asker (day_window now)) (day_bucket user_id window)
      then one_if (record_usage limits now asker request_id input output commits db).0
      else 0

  -- How one call changes a day and what it reports of it.
  pub data Change (user_id : String) (window : ℕ) (e : Event) (db : Database) : Type 0 where
    same :
        total_of user_id window (serve limits e db) ≡ total_of user_id window db
        → reports user_id window e db ≡ 0
        → Change user_id window e db
    more :
        (n : ℕ)
        → total_of user_id window (serve limits e db) ≡ total_of user_id window db + n
        → reports user_id window e db
          ≡ one_if (crosses limits (total_of user_id window db) (total_of user_id window db + n))
        → Change user_id window e db

  pub ask-total :
      (user_id : String) (window now : ℕ) (asker : String) (db : Database)
      → let after = serve limits (asks now asker) db in
        (total_of user_id window after ≡ total_of user_id window db)
        × (after.requests ≡ db.requests)
  unfolding serve check_and_enforce
  ask-total user_id window now asker db = elim (Bool-cases limits.enabled) [
    | inr off ↦ (rw (off, check_and_enforce) refl, rw (off, check_and_enforce) refl)
    | inl on ↦
        let shape = check_and_enforce-counts limits now asker db on in
        (
          ap (λ (z : Result LimitError (Unit {0}) × Database). total_of user_id window z.1) shape
              ∙ ap tokens (
                  counts_of-upsert (day_bucket user_id window)
                    (minute_bucket asker (minute_window now)) one_request db.buckets),
          ap (λ (z : Result LimitError (Unit {0}) × Database). z.1.requests) shape,
        )
  ]

  pub serve-Change :
      (user_id : String) (window : ℕ) (e : Event) (db : Database) → Change user_id window e db
  unfolding reports serve
  serve-Change user_id window (asks now asker) db =
      same (ask-total user_id window now asker db).0 refl
  serve-Change user_id window (records now asker request_id input output commits) db =
      elim (Bool-cases (counts_write limits input output commits)) [
        | inr z ↦ nothing (record_usage-skips limits now asker request_id input output commits db z)
        | inl z ↦ elim (Option-cases (get request_id db.requests)) [
          | inr (r, f) ↦
              nothing (record_usage-known limits now asker request_id input output commits db r f)
          | inl f ↦
              let shape =
                record_usage-adds limits now asker request_id input output commits db z f in
              let here = total_of-added user_id window now asker input output db in
              let after = ap (λ (x : Out). total_of user_id window x.1) shape in
              elim (Bool-cases (same_bucket j k)) [
                | inr e ↦ same (after ∙ cc (here, e)) (rw (e, reports) refl)
                | inl e ↦
                    let to : tokens (counts_of k (added now asker input output db))
                        ≡ total_of user_id window db + (input + output) =
                      cc (here, e) in
                    let from : tokens (counts_of j (added now asker input output db))
                        ≡ total_of user_id window db + (input + output) =
                      ap (λ x. tokens (counts_of x (added now asker input output db)))
                        (same_bucket→≡ j k e)
                      ∙ to in
                    let before : tokens (counts_of j (added now asker input output db))
                          - input
                          - output
                        ≡ total_of user_id window db =
                      omega (arith, from) in
                    more (input + output) (after ∙ to) (
                      rw (e, reports)
                        (ap (λ (x : Out). one_if x.0) shape
                          ∙ ap
                              (λ n. one_if (
                                crosses limits n
                                  (tokens (counts_of j (added now asker input output db)))))
                              before
                          ∙ ap (λ n. one_if (crosses limits (total_of user_id window db) n)) from))
              ]
        ]
      ]
    where
      j : Bucket
      j = day_bucket asker (day_window now)

      k : Bucket
      k = day_bucket user_id window

      nothing :
          record_usage limits now asker request_id input output commits db ≡ (false, db)
          → Change user_id window (records now asker request_id input output commits) db
      nothing p =
          same (ap (λ (x : Out). total_of user_id window x.1) p)
            (elim (Bool-cases (same_bucket j k)) [
              | inl e ↦ rw (e, reports) (ap (λ (x : Out). one_if x.0) p)
              | inr e ↦ rw (e, reports) refl
            ])
