-- ===== src/Usage/Rates.antt =====
-- How many requests check_and_enforce of server/src/application/services/usage.py lets through in 60
-- seconds of the clock.
use juris_ai.Base.{
  &&→×, ℕ, ◌+◌, ◌*◌, ◌≤◌, String, Bool, true, ◌&&◌, ◌≡◌, refl, sym, ap, ◌∙◌, ◌⊎◌, inl, inr, List,
  [], ◌∷◌, ◌==◌, leb, ltb, if◌then◌else◌, Bool-cases, ==→≡, arith,
}
use juris_ai.Usage.Buckets.{Database, same_bucket, minute_bucket, same_bucket_refl}
use juris_ai.Usage.Service.{RateLimit, minute_window, check_and_enforce}
use juris_ai.Usage.Effects.{is_ok}
use juris_ai.Usage.Limits.{Event, asks, records, one_if, serve, admits, admitted, admitted_le}

-- The time is one of the 60 seconds from the start on.
abbrev pub is_within : (start now : ℕ) → Bool
is_within start now = leb start now && ltb now (start + 60)

-- Such a time lies in the calendar minute of the start, or in the next one.
minute_window-cases :
    (start now : ℕ)
    → is_within start now ≡ true
    → (minute_window now ≡ minute_window start) ⊎ (minute_window now ≡ minute_window start + 60)
minute_window-cases start now h = ground arith

minute_window-aligned :
    (minute now : ℕ) → is_within (60 * minute) now ≡ true → minute_window now ≡ 60 * minute
minute_window-aligned minute now h = ground arith

module _ (limits : RateLimit) where
  -- The requests of a user in the 60 seconds from the start on that are let through.
  unfoldable pub passes : String → ℕ → Event → Database → ℕ
  unfolding check_and_enforce
  passes user_id start (asks now asker) db =
      if (asker == user_id) && is_within start now
      then one_if (is_ok (check_and_enforce limits now asker db).0)
      else 0
  passes user_id start (records now asker request_id input output commits) db = 0

  unfoldable pub passed : String → ℕ → List Event → Database → ℕ
  unfolding passes serve
  passed user_id start [] db = 0
  passed user_id start (e ∷ es) db =
      passes user_id start e db + passed user_id start es (serve limits e db)

  admits-here :
      (user_id asker : String) (window now : ℕ) (db : Database)
      → asker ≡ user_id
      → minute_window now ≡ window
      → admits limits user_id window (asks now asker) db
        ≡ one_if (is_ok (check_and_enforce limits now asker db).0)
  unfolding admits
  admits-here user_id asker window now db same there =
      let equal : same_bucket (minute_bucket asker (minute_window now))
            (minute_bucket user_id window)
          ≡ true =
        ap (λ z. same_bucket (minute_bucket asker (minute_window now)) z)
          (sym
            (ap (λ u. minute_bucket u (minute_window now)) same ∙ ap (minute_bucket user_id) there))
        ∙ same_bucket_refl (minute_bucket asker (minute_window now)) in
      rw equal refl

  -- Of two windows, one holds each time of the 60 seconds.
  module _ (user_id : String) (start v w : ℕ)
      (hold : (now : ℕ)
        → is_within start now ≡ true
        → (minute_window now ≡ v) ⊎ (minute_window now ≡ w)) where
    passes_le :
        (e : Event) (db : Database)
        → passes user_id start e db ≤ admits limits user_id v e db + admits limits user_id w e db
    unfolding passes
    passes_le (records now asker request_id input output commits) db = omega arith
    passes_le (asks now asker) db = elim (Bool-cases ((asker == user_id) && is_within start now)) [
      | inr f ↦ rw f (omega arith)
      | inl h ↦
          let (named, inside) = &&→× (asker == user_id) (is_within start now) h in
          let same = ==→≡ asker user_id named in
          elim (hold now inside) [
            | inl there ↦
                let n = admits-here user_id asker v now db same there in rw h (omega (arith, n))
            | inr there ↦
                let n = admits-here user_id asker w now db same there in rw h (omega (arith, n))
          ]
    ]

    passed_le :
        (es : List Event) (db : Database)
        → passed user_id start es db
          ≤ admitted limits user_id v es db + admitted limits user_id w es db
    unfolding passed admitted
    passed_le [] db = omega arith
    passed_le (e ∷ es) db =
        let rest = passed_le es (serve limits e db) in
        let first = passes_le e db in omega (arith, rest, first)

  aligned_le :
      (user_id : String) (minute : ℕ) (e : Event) (db : Database)
      → passes user_id (60 * minute) e db ≤ admits limits user_id (60 * minute) e db
  unfolding passes
  aligned_le user_id minute (records now asker request_id input output commits) db = omega arith
  aligned_le user_id minute (asks now asker) db =
      elim (Bool-cases ((asker == user_id) && is_within (60 * minute) now)) [
        | inr f ↦ rw f (omega arith)
        | inl h ↦
            let (named, inside) = &&→× (asker == user_id) (is_within (60 * minute) now) h in
            let n =
              admits-here user_id asker (60 * minute) now db (==→≡ asker user_id named)
                (minute_window-aligned minute now inside) in
            rw h (omega (arith, n))
      ]

  passed-aligned_le :
      (user_id : String) (minute : ℕ) (es : List Event) (db : Database)
      → passed user_id (60 * minute) es db ≤ admitted limits user_id (60 * minute) es db
  unfolding passed admitted
  passed-aligned_le user_id minute [] db = omega arith
  passed-aligned_le user_id minute (e ∷ es) db =
      let rest = passed-aligned_le user_id minute es (serve limits e db) in
      let first = aligned_le user_id minute e db in omega (arith, rest, first)

  -- With the limits on, whatever calls of check_and_enforce and record interleave, in a calendar
  -- minute no more requests of one user pass than the limit allows, and in any 60 seconds no more
  -- than twice the limit.
  pub rate_limited :
      (user_id : String) (minute start : ℕ) (es : List Event) (db : Database)
      → limits.enabled ≡ true
      → (passed user_id (60 * minute) es db ≤ limits.requests_per_minute)
        × (passed user_id start es db ≤ limits.requests_per_minute + limits.requests_per_minute)
  rate_limited user_id minute start es db on =
      let one = admitted_le limits user_id (60 * minute) es db on in
      let v = minute_window start in
      let first = admitted_le limits user_id v es db on in
      let second = admitted_le limits user_id (v + 60) es db on in
      let aligned = passed-aligned_le user_id minute es db in
      let any = passed_le user_id start v (v + 60) (minute_window-cases start) es db in
      (omega (arith, one, aligned), omega (arith, first, second, any))
