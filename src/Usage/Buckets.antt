-- ===== src/Usage/Buckets.antt =====
-- The usage_records table: UsageRecordRepository of server/src/adapters/persistence/sqlalchemy/
-- repositories/usage_record.py. A table is the list of its rows; the unique constraint is kept by
-- the upsert, which is the only write. Times are seconds since the epoch, in UTC.
use juris_ai.Base.{
  &&→×, ℕ, ◌+◌, String, Bool, true, false, ◌&&◌, ◌≡◌, refl, sym, ap, ◌∙◌, inl, inr, Option, none,
  some, List, [], ◌∷◌, leb, ◌==◌, if◌then◌else◌, Bool-cases, ==→≡, ==_refl, arith,
}
use juris_ai.Base.Dict.{Dict, get, put}

-- The columns of the unique constraint of a bucket.
pub record Bucket : Type 0 where
  pub user_id : String
  pub period : String
  pub window_start : ℕ

pub record Counts : Type 0 where
  pub request_count : ℕ
  pub input_tokens : ℕ
  pub output_tokens : ℕ

abbrev pub no_counts : Counts
no_counts = record { request_count = 0; input_tokens = 0; output_tokens = 0 }

abbrev pub plus : Counts → Counts → Counts
plus a b = record {
  request_count = a.request_count + b.request_count;
  input_tokens = a.input_tokens + b.input_tokens;
  output_tokens = a.output_tokens + b.output_tokens;
}

abbrev pub eq_num : ℕ → ℕ → Bool
eq_num a b = leb a b && leb b a

abbrev pub same_bucket : Bucket → Bucket → Bool
same_bucket a b =
    (a.period == b.period) && ((a.user_id == b.user_id) && eq_num a.window_start b.window_start)

-- A usage_request_records row.
pub record RequestRow : Type 0 where
  pub user_id : String
  pub input_tokens : ℕ
  pub output_tokens : ℕ

pub record Database : Type 0 where
  pub buckets : List (Bucket × Counts)
  pub requests : Dict RequestRow

-- INSERT … ON CONFLICT DO UPDATE
unfoldable pub upsert : Bucket → Counts → List (Bucket × Counts) → List (Bucket × Counts)
upsert k n [] = (k, n) ∷ []
upsert k n ((j, m) ∷ rows) =
    if same_bucket j k then (j, plus m n) ∷ rows else (j, m) ∷ upsert k n rows

-- The counts of a bucket, none of a bucket that does not exist.
unfoldable pub counts_of : Bucket → List (Bucket × Counts) → Counts
counts_of k [] = no_counts
counts_of k ((j, m) ∷ rows) = if same_bucket j k then m else counts_of k rows

abbrev pub tokens : Counts → ℕ
tokens n = n.input_tokens + n.output_tokens

-- _increment, with the request count and the token total that it returns
unfoldable pub increment : Bucket → Counts → Database → (ℕ × ℕ) × Database
unfolding upsert counts_of
increment k n db =
    let rows = upsert k n db.buckets in
    let after = counts_of k rows in
    ((after.request_count, tokens after), record db { buckets = rows })

abbrev pub minute_bucket : String → ℕ → Bucket
minute_bucket user_id window = record {
  user_id = user_id;
  period = "minute";
  window_start = window;
}

abbrev pub day_bucket : String → ℕ → Bucket
day_bucket user_id window = record { user_id = user_id; period = "day"; window_start = window }

abbrev pub one_request : Counts
one_request = record { request_count = 1; input_tokens = 0; output_tokens = 0 }

abbrev pub used_tokens : ℕ → ℕ → Counts
used_tokens input output = record {
  request_count = 0;
  input_tokens = input;
  output_tokens = output;
}

unfoldable pub increment_request_count : String → ℕ → Database → ℕ × Database
unfolding increment
increment_request_count user_id window db =
    let ((count, total), after) = increment (minute_bucket user_id window) one_request db in
    (count, after)

unfoldable pub increment_tokens : String → ℕ → ℕ → ℕ → Database → ℕ × Database
unfolding increment
increment_tokens user_id window input output db =
    let ((count, total), after) =
      increment (day_bucket user_id window) (used_tokens input output) db in
    (total, after)

unfoldable pub get_daily_token_usage : String → ℕ → Database → ℕ
unfolding counts_of
get_daily_token_usage user_id window db = tokens (counts_of (day_bucket user_id window) db.buckets)

-- ON CONFLICT DO NOTHING on request_id; `none` for a request that was recorded.
unfoldable pub record_request_tokens : String → String → ℕ → ℕ → ℕ → Database → Option ℕ × Database
unfolding increment_tokens
record_request_tokens request_id user_id window input output db =
    elim (get request_id db.requests) [
      | some row ↦ (none, db)
      | none ↦
          let row : RequestRow = record {
            user_id = user_id;
            input_tokens = input;
            output_tokens = output;
          } in
          let (total, after) =
            increment_tokens user_id window input output
              (record db { requests = put request_id row db.requests }) in
          (some total, after)
    ]

leb_le : (a b : ℕ) → eq_num a b ≡ true → a ≡ b
leb_le a b e = ground arith

pub same_bucket→≡ : (a b : Bucket) → same_bucket a b ≡ true → a ≡ b
same_bucket→≡ a b e =
    let (p, rest) = &&→× (a.period == b.period) _ e in
    let (u, w) = &&→× (a.user_id == b.user_id) _ rest in
    equal (==→≡ a.user_id b.user_id u) (==→≡ a.period b.period p)
      (leb_le a.window_start b.window_start w)
  where
    equal : a.user_id ≡ b.user_id → a.period ≡ b.period → a.window_start ≡ b.window_start → a ≡ b
    equal p q r = cc

eq_num_refl : (n : ℕ) → eq_num n n ≡ true
eq_num_refl n = ground arith

pub same_bucket_refl : (a : Bucket) → same_bucket a a ≡ true
same_bucket_refl a = rw (==_refl a.period, ==_refl a.user_id, eq_num_refl a.window_start) refl

same_counts :
    (a b : Counts)
    → a.request_count ≡ b.request_count
    → a.input_tokens ≡ b.input_tokens
    → a.output_tokens ≡ b.output_tokens
    → a ≡ b
same_counts a b p q r = cc

plus_none : (n : Counts) → plus no_counts n ≡ n
plus_none n = same_counts (plus no_counts n) n (omega arith) (omega arith) (omega arith)

-- An upsert adds to its bucket and to no other.
pub counts_of-upsert :
    (k j : Bucket) (n : Counts) (rows : List (Bucket × Counts))
    → counts_of k (upsert j n rows)
      ≡ (if same_bucket j k then plus (counts_of k rows) n else counts_of k rows)
unfolding counts_of upsert
counts_of-upsert k j n [] = elim (Bool-cases (same_bucket j k)) [
  | inl e ↦ rw e (sym (plus_none n))
  | inr e ↦ rw e refl
]
counts_of-upsert k j n ((i, m) ∷ rows) = elim (Bool-cases (same_bucket i j)) [
  | inl e ↦
      let same : i ≡ j = same_bucket→≡ i j e in
      elim (Bool-cases (same_bucket i k)) [
        | inl f ↦
            let f' : same_bucket j k ≡ true = sym (ap (λ z. same_bucket z k) same) ∙ f in
            rw (e, f, f') refl
        | inr f ↦
            let f' : same_bucket j k ≡ false = sym (ap (λ z. same_bucket z k) same) ∙ f in
            rw (e, f, f') refl
      ]
  | inr e ↦ elim (Bool-cases (same_bucket i k)) [
    | inl f ↦
        let same : i ≡ k = same_bucket→≡ i k f in
        let g : same_bucket j k ≡ false = other i j k same e in rw (e, f, g) refl
    | inr f ↦ rw (e, f) (counts_of-upsert k j n rows)
  ]
]
  where
    other : (i j k : Bucket) → i ≡ k → same_bucket i j ≡ false → same_bucket j k ≡ false
    other i j k p e = elim (Bool-cases (same_bucket j k)) [
      | inl f ↦
          let same : i ≡ j = p ∙ sym (same_bucket→≡ j k f) in
          absurd (cc (sym (ap (λ z. same_bucket i z) same) ∙ same_bucket_refl i, e))
      | inr f ↦ f
    ]
