-- ===== src/Usage/Days.antt =====
-- The tokens that `record` of server/src/application/services/usage.py adds to the day of a user,
-- over the requests of many users.
use juris_ai.Base.{
  ℕ, ◌+◌, String, false, not, ◌&&◌, ◌≡◌, sym, ap, ◌∙◌, ◌↔◌, inl, inr, none, some, List, [], ◌∷◌,
  elem, ◌==◌, if◌then◌else◌, Bool-cases, Option-cases, arith, String-cases, ≡→==,
}
use juris_ai.Base.Dict.{get, put, get-put}
use juris_ai.Usage.Buckets.{Bucket, Database, RequestRow, same_bucket, day_bucket}
use juris_ai.Usage.Service.{RateLimit, day_window, record_usage}
use juris_ai.Usage.Effects.{record_usage-skips, record_usage-known, record_usage-adds, counts_write}
use juris_ai.Usage.Limits.{Event, asks, records, serve, serve_all}
use juris_ai.Usage.Changes.{total_of, ask-total, total_of-added, Out}

module _ (limits : RateLimit) where
  -- The tokens of the requests that count: each request once, at the first write that goes through.
  unfoldable pub spent : String → ℕ → List Event → List String → ℕ
  unfolding counts_write
  spent user_id window [] seen = 0
  spent user_id window (asks now asker ∷ es) seen = spent user_id window es seen
  spent user_id window (records now asker request_id input output commits ∷ es) seen =
      let rest = spent user_id window es (request_id ∷ seen) in
      let skipped = spent user_id window es seen in
      if counts_write limits input output commits && not (elem request_id seen)
      then (if same_bucket (day_bucket asker (day_window now)) (day_bucket user_id window)
          then input + output + rest
          else rest)
      else skipped

  -- The requests that are known are those that the table has.
  abbrev pub Knows : Database → List String → Type 0
  Knows db seen = (id : String) → (elem id seen ≡ false) ↔ (get id db.requests ≡ none)

  Knows-same :
      (db db' : Database) (seen : List String)
      → db'.requests ≡ db.requests
      → Knows db seen
      → Knows db' seen
  Knows-same db db' seen e h id =
      (λ p. ap (get id) e ∙ (h id).0 p, λ p. (h id).1 (sym (ap (get id) e) ∙ p))

  Knows-put :
      (db db' : Database) (seen : List String) (request_id : String) (row : RequestRow)
      → db'.requests ≡ put request_id row db.requests
      → Knows db seen
      → Knows db' (request_id ∷ seen)
  Knows-put db db' seen request_id row e h id =
      let here = ap (get id) e ∙ get-put request_id id row db.requests in
      elim (String-cases id request_id) [
        | inl p ↦
            let q = ≡→== request_id id (sym p) in
            let found : get id db'.requests ≡ some row = cc (here, q) in
            (λ x. cc (rw (≡→== id request_id p) at x), λ x. cc (found, x))
        | inr (n, f) ↦
            let q : (request_id == id) ≡ false = elim (String-cases request_id id) [
              | inl p ↦ absurd (n (sym p))
              | inr (_, g) ↦ g
            ] in
            let kept : get id db'.requests ≡ get id db.requests = cc (here, q) in
            (λ x. kept ∙ (h id).0 (rw f at x), λ x. rw f ((h id).1 (sym kept ∙ x)))
      ]

  -- If the known request ids are those of the table, the day of a user grows over any calls of
  -- check_and_enforce and record by the tokens of the requests of that user and day, each request
  -- id counted once, at its first write that is committed.
  pub day_total :
      (user_id : String) (window : ℕ) (es : List Event) (db : Database) (seen : List String)
      → Knows db seen
      → total_of user_id window (serve_all limits es db)
        ≡ total_of user_id window db + spent user_id window es seen
  unfolding serve_all serve spent
  day_total user_id window [] db seen h = omega arith
  day_total user_id window (asks now asker ∷ es) db seen h =
      let (p, q) = ask-total limits user_id window now asker db in
      let after = serve limits (asks now asker) db in
      let rest = day_total user_id window es after seen (Knows-same db after seen q h) in
      omega (arith, rest, p)
  day_total user_id window (records now asker request_id input output commits ∷ es) db seen h =
      let next = serve limits (records now asker request_id input output commits) db in
      let unchanged : record_usage limits now asker request_id input output commits db ≡ (false, db)
          → total_of user_id window (serve_all limits es next)
            ≡ total_of user_id window db + spent user_id window es seen =
        λ p.
          let same_db : next ≡ db = ap (λ (x : Out). x.1) p in
          ap (λ x. total_of user_id window (serve_all limits es x)) same_db
          ∙ day_total user_id window es db seen h in
      elim (Bool-cases (counts_write limits input output commits)) [
        | inr z ↦
            rw (z, spent)
              (unchanged (record_usage-skips limits now asker request_id input output commits db z))
        | inl z ↦ elim (Bool-cases (elem request_id seen)) [
          | inl m ↦ elim (Option-cases (get request_id db.requests)) [
            | inl f ↦ absurd (cc ((h request_id).1 f, m))
            | inr (r, f) ↦
                rw (z, m, spent)
                  (unchanged
                    (record_usage-known limits now asker request_id input output commits db r f))
          ]
          | inr m ↦
              let shape =
                record_usage-adds limits now asker request_id input output commits db z
                  ((h request_id).0 m) in
              let row : RequestRow = record {
                user_id = asker;
                input_tokens = input;
                output_tokens = output;
              } in
              let known =
                Knows-put db after seen request_id row (ap (λ (x : Out). x.1.requests) shape) h in
              let rest = day_total user_id window es after (request_id ∷ seen) known in
              let here =
                ap (λ (x : Out). total_of user_id window x.1) shape
                ∙ total_of-added user_id window now asker input output db in
              elim (Bool-cases (same_bucket j k)) [
                | inl e ↦
                    let to : total_of user_id window after
                        ≡ total_of user_id window db + (input + output) =
                      cc (here, e) in
                    rw (z, m, e, spent) (omega (arith, rest, to))
                | inr e ↦
                    let to : total_of user_id window after ≡ total_of user_id window db =
                      cc (here, e) in
                    rw (z, m, e, spent) (omega (arith, rest, to))
              ]
        ]
      ]
    where
      j : Bucket
      j = day_bucket asker (day_window now)

      k : Bucket
      k = day_bucket user_id window

      after : Database
      after = serve limits (records now asker request_id input output commits) db
