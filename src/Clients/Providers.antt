-- ===== src/Clients/Providers.antt =====
-- Which client answers a call of server/src/adapters/clients/llm/failover.py.
use juris_ai.Base.{true, false, ◌≡◌, ◌⊎◌, Option, none, some, List, [], ◌∷◌}
use juris_ai.Base.Int.{ℤ, ltz}
use juris_ai.Clients.Failover.{
  Raised, responds, raises, LlmRequest, Stream, FailoverOutcome, skipped_deadline, skipped_context,
  attempted, failed, Clients, Called,
}
use juris_ai.Clients.Errors.{IsOutage, IsHidden}

module _ {Body Response Chunk : Type 0} (c : Clients Body Response Chunk) where
  -- There is no deadline, or no less than min_fallback_seconds are left.
  pub data HasTime : Option ℤ → Type 0 where
    no_deadline : HasTime none
    left : (seconds : ℤ) → ltz seconds c.min_fallback_seconds ≡ false → HasTime (some seconds)

  abbrev pub plain : LlmRequest Body → LlmRequest Body
  plain request = record { model = none; body = request.body }

  -- What the fallback makes of a request that it may take.
  pub data Decides (remaining : Option ℤ) (request : LlmRequest Body)
      : Option (LlmRequest Body) × FailoverOutcome → Type 0 where
    takes :
        HasTime remaining
        → c.fits_fallback request ≡ true
        → Decides remaining request (some (plain request), attempted)
    late : ¬ HasTime remaining → Decides remaining request (none, skipped_deadline)
    long :
        HasTime remaining
        → c.fits_fallback request ≡ false
        → Decides remaining request (none, skipped_context)

  -- How a call ends, by what the clients do.
  pub data Ends (remaining : Option ℤ) (request : LlmRequest Body) : Called Response → Type 0 where
    first :
        (r : Response)
        → c.primary request ≡ responds r
        → Ends remaining request (record { ends = responds r; metrics = []; fell_back = false })
    refused :
        (e : Raised)
        → c.primary request ≡ raises e
        → ¬ IsOutage e
        → Ends remaining request (record { ends = raises e; metrics = []; fell_back = false })
    overdue :
        (e : Raised)
        → c.primary request ≡ raises e
        → IsOutage e
        → ¬ HasTime remaining
        → Ends remaining request
            (record { ends = raises e; metrics = skipped_deadline ∷ []; fell_back = false })
    oversized :
        (e : Raised)
        → c.primary request ≡ raises e
        → IsOutage e
        → HasTime remaining
        → c.fits_fallback request ≡ false
        → Ends remaining request
            (record { ends = raises e; metrics = skipped_context ∷ []; fell_back = false })
    second :
        (e : Raised) (r : Response)
        → c.primary request ≡ raises e
        → IsOutage e
        → HasTime remaining
        → c.fits_fallback request ≡ true
        → c.fallback (plain request) ≡ responds r
        → Ends remaining request
            (record { ends = responds r; metrics = attempted ∷ []; fell_back = true })
    both :
        (e x : Raised)
        → c.primary request ≡ raises e
        → IsOutage e
        → HasTime remaining
        → c.fits_fallback request ≡ true
        → c.fallback (plain request) ≡ raises x
        → IsHidden x
        → Ends remaining request
            (record { ends = raises e; metrics = attempted ∷ failed ∷ []; fell_back = false })
    broken :
        (e x : Raised)
        → c.primary request ≡ raises e
        → IsOutage e
        → HasTime remaining
        → c.fits_fallback request ≡ true
        → c.fallback (plain request) ≡ raises x
        → ¬ IsHidden x
        → Ends remaining request
            (record { ends = raises x; metrics = attempted ∷ []; fell_back = false })

  -- Which stream a caller gets.
  pub data Streams (remaining : Option ℤ) (request : LlmRequest Body) : Stream Chunk → Type 0 where
    begun :
        (x : Chunk) (xs : List Chunk)
        → (c.primary_stream request).chunks ≡ x ∷ xs
        → Streams remaining request (c.primary_stream request)
    empty :
        (c.primary_stream request).chunks ≡ []
        → (c.primary_stream request).ends ≡ none
        → Streams remaining request (c.primary_stream request)
    kept :
        (e : Raised)
        → (c.primary_stream request).chunks ≡ []
        → (c.primary_stream request).ends ≡ some e
        → (¬ IsOutage e) ⊎ ((¬ HasTime remaining) ⊎ (c.fits_fallback request ≡ false))
        → Streams remaining request (c.primary_stream request)
    replaced :
        (e : Raised)
        → (c.primary_stream request).chunks ≡ []
        → (c.primary_stream request).ends ≡ some e
        → IsOutage e
        → HasTime remaining
        → c.fits_fallback request ≡ true
        → Streams remaining request (c.fallback_stream (plain request))
