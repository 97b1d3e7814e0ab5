-- ===== src/Examples/Failovers.antt =====
-- A primary provider that is down, and a fallback: server/src/adapters/clients/llm/failover.py.
use juris_ai.Base.{ℕ, ◌≡◌, refl, true, false, none, some, [], ◌∷◌}
use juris_ai.Base.Int.{pos, negsuc}
use juris_ai.Clients.Failover.{
  client, rate_limit, responds, raises, LlmRequest, skipped_deadline, attempted, Clients, generate,
  stream,
}

abbrev clients : Clients ℕ ℕ ℕ
clients = record {
  primary = λ r. raises (client rate_limit);
  fallback = λ r. responds r.body;
  primary_stream = λ r. record { chunks = 1 ∷ []; ends = some (client rate_limit) };
  fallback_stream = λ r. record { chunks = 8 ∷ 9 ∷ []; ends = none };
  fits_fallback = λ r. true;
  min_fallback_seconds = pos 30;
}

abbrev request : LlmRequest ℕ
request = record { model = some "large"; body = 4 }

generate-in_time :
    generate clients (some (pos 40)) request
    ≡ record { ends = responds 4; metrics = attempted ∷ []; fell_back = true }
unfolding generate
generate-in_time = refl

generate-overdue : generate clients (some (negsuc 0)) request ≡ record {
  ends = raises (client rate_limit);
  metrics = skipped_deadline ∷ [];
  fell_back = false;
}
unfolding generate
generate-overdue = refl

-- A stream that has begun is not taken over.
stream-begun :
    stream clients none request ≡ record { chunks = 1 ∷ []; ends = some (client rate_limit) }
unfolding stream
stream-begun = refl
