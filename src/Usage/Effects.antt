-- ===== src/Usage/Effects.antt =====
-- What one call of server/src/application/services/usage.py writes.
use juris_ai.Base.{
  ℕ, ◌-◌, ◌≤◌, String, Bool, true, false, ◌&&◌, ◌≡◌, refl, inl, inr, none, some, List, ltb, leb,
  if◌then◌else◌, Bool-cases, arith,
}
use juris_ai.Base.Dict.{get, put}
use juris_ai.Base.Result.{Result, ok, err}
use juris_ai.Usage.Buckets.{
  Bucket, Counts, Database, RequestRow, upsert, counts_of, tokens, increment, minute_bucket,
  day_bucket, one_request, used_tokens, increment_request_count, increment_tokens,
  record_request_tokens,
}
use juris_ai.Usage.Service.{
  RateLimit, minute_window, day_window, enforce, check_and_enforce, crosses, report, record_usage,
}

abbrev pub is_ok : {A E : Type 0} → Result E A → Bool
is_ok (ok a) = true
is_ok (err e) = false

-- The buckets after a write of tokens.
unfoldable pub added : ℕ → String → ℕ → ℕ → Database → List (Bucket × Counts)
added now user_id input output db =
    upsert (day_bucket user_id (day_window now)) (used_tokens input output) db.buckets

module _ (limits : RateLimit) where
  -- Whether `record` comes to a write that is committed.
  unfoldable pub counts_write : (input output : ℕ) → Bool → Bool
  counts_write input output commits =
      if leb input 0 && leb output 0 then false else limits.enabled && commits

  pub record_usage-skips :
      (now : ℕ) (user_id request_id : String) (input output : ℕ) (commits : Bool) (db : Database)
      → counts_write input output commits ≡ false
      → record_usage limits now user_id request_id input output commits db ≡ (false, db)
  unfolding record_usage counts_write
  record_usage-skips now user_id request_id input output commits db e =
      elim (Bool-cases (leb input 0 && leb output 0)) [
        | inl z ↦ rw (z, record_usage) refl
        | inr z ↦ let e' = rw (z, counts_write) at e in rw (z, e', record_usage) refl
      ]

  pub record_usage-known :
      (now : ℕ) (user_id request_id : String) (input output : ℕ) (commits : Bool) (db : Database)
      (row : RequestRow)
      → get request_id db.requests ≡ some row
      → record_usage limits now user_id request_id input output commits db ≡ (false, db)
  unfolding record_usage record_request_tokens
  record_usage-known now user_id request_id input output commits db row f =
      elim (Bool-cases (leb input 0 && leb output 0)) [
        | inl z ↦ rw (z, record_usage) refl
        | inr z ↦ elim (Bool-cases (limits.enabled && commits)) [
          | inl e ↦ rw (z, e, f, record_usage, record_request_tokens, report) refl
          | inr e ↦ rw (z, e, record_usage) refl
        ]
      ]

  pub record_usage-adds :
      (now : ℕ) (user_id request_id : String) (input output : ℕ) (commits : Bool) (db : Database)
      → counts_write input output commits ≡ true
      → get request_id db.requests ≡ none
      → let rows = added now user_id input output db in
        let total = tokens (counts_of (day_bucket user_id (day_window now)) rows) in
        record_usage limits now user_id request_id input output commits db ≡ (
          crosses limits (total - input - output) total,
          record {
            buckets = rows;
            requests =
                put request_id
                  (record { user_id = user_id; input_tokens = input; output_tokens = output })
                  db.requests;
          },
        )
  unfolding record_usage record_request_tokens increment_tokens increment added counts_write
  record_usage-adds now user_id request_id input output commits db e f =
      elim (Bool-cases (leb input 0 && leb output 0)) [
        | inl z ↦ cc (rw (z, counts_write) at e)
        | inr z ↦
            let e' = rw (z, counts_write) at e in
            rw (z, e', f, record_usage, record_request_tokens, report) refl
      ]

  pub check_and_enforce-counts :
      (now : ℕ) (user_id : String) (db : Database)
      → limits.enabled ≡ true
      → let j = minute_bucket user_id (minute_window now) in
        let after : Database = record db { buckets = upsert j one_request db.buckets } in
        check_and_enforce limits now user_id db
        ≡ (enforce limits now user_id (counts_of j after.buckets).request_count after, after)
  unfolding check_and_enforce increment_request_count increment
  check_and_enforce-counts now user_id db on = rw (on, check_and_enforce) refl

  pub enforce-ok :
      (now : ℕ) (user_id : String) (count : ℕ) (db : Database)
      → is_ok (enforce limits now user_id count db) ≡ true
      → count ≤ limits.requests_per_minute
  unfolding enforce
  enforce-ok now user_id count db e = elim (Bool-cases (ltb limits.requests_per_minute count)) [
    | inl l ↦ cc (rw (l, enforce) at e)
    | inr l ↦ ground arith
  ]
