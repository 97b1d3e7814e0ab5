-- ===== src/Clients/Failover.antt =====
-- FailoverLLMClient of server/src/adapters/clients/llm/failover.py. What the two clients do with a
-- request is a parameter; the readings of the deadline are arguments.
use juris_ai.Base.{String, Bool, true, false, Option, none, some, List, [], ◌∷◌, if◌then◌else◌}
use juris_ai.Base.Int.{ℤ, ltz}

-- The subclasses of ClientError.
pub data ClientError : Type 0 where
  configuration authentication authorization rate_limit timeout connection : ClientError
  response_error provider_error service_unavailable invalid_response : ClientError

-- What a call raises: a ClientError, the TimeoutError of asyncio.wait_for, or something else.
pub data Raised : Type 0 where
  client : ClientError → Raised
  timed_out : Raised
  other : String → Raised

pub data Outcome (A : Type 0) : Type 0 where
  responds : A → Outcome A
  raises : Raised → Outcome A

-- except FAILOVER_ERRORS
abbrev pub is_failover : Raised → Bool
is_failover (client rate_limit) = true
is_failover (client timeout) = true
is_failover (client connection) = true
is_failover (client service_unavailable) = true
is_failover _ = false

-- except (ClientError, TimeoutError)
abbrev pub is_fallback_failure : Raised → Bool
is_fallback_failure (client e) = true
is_fallback_failure timed_out = true
is_fallback_failure (other e) = false

-- A request, as far as failover looks at it: `body` is the rest.
pub record LlmRequest (Body : Type 0) : Type 0 where
  pub model : Option String
  pub body : Body

-- The stream of a client: its chunks, and the exception that ends it.
pub record Stream (Chunk : Type 0) : Type 0 where
  pub chunks : List Chunk
  pub ends : Option Raised

pub data FailoverOutcome : Type 0 where
  skipped_deadline skipped_context attempted failed : FailoverOutcome

-- The two clients, `fits_fallback`, and min_fallback_seconds. `fallback` is asyncio.wait_for around
-- the call, which ends at the deadline.
pub record Clients (Body Response Chunk : Type 0) : Type 0 where
  pub primary : LlmRequest Body → Outcome Response
  pub fallback : LlmRequest Body → Outcome Response
  pub primary_stream : LlmRequest Body → Stream Chunk
  pub fallback_stream : LlmRequest Body → Stream Chunk
  pub fits_fallback : LlmRequest Body → Bool
  pub min_fallback_seconds : ℤ

-- What one call leaves: how it ends, the metrics in order, and the note that the fallback answered.
pub record Called (A : Type 0) : Type 0 where
  pub ends : Outcome A
  pub metrics : List FailoverOutcome
  pub fell_back : Bool

-- remaining is not None and remaining < min_fallback_seconds
abbrev pub too_late : Option ℤ → ℤ → Bool
too_late none least = false
too_late (some seconds) least = ltz seconds least

module _ {Body Response Chunk : Type 0} (c : Clients Body Response Chunk) where
  -- _fallback_request, with the metric that it records
  unfoldable pub fallback_request :
      Option ℤ → LlmRequest Body → Option (LlmRequest Body) × FailoverOutcome
  fallback_request remaining request =
      if too_late remaining c.min_fallback_seconds
      then (none, skipped_deadline)
      else if c.fits_fallback request
      then (some (record request { model = none }), attempted)
      else (none, skipped_context)

  -- The call of the fallback, and its handler.
  unfoldable pub fall_back : Raised → Outcome Response → Called Response
  fall_back e (responds r) = record {
    ends = responds r;
    metrics = attempted ∷ [];
    fell_back = true;
  }
  fall_back e (raises x) =
      if is_fallback_failure x
      then record { ends = raises e; metrics = attempted ∷ failed ∷ []; fell_back = false }
      else record { ends = raises x; metrics = attempted ∷ []; fell_back = false }

  unfoldable pub try_fallback :
      Raised → Option (LlmRequest Body) × FailoverOutcome → Called Response
  unfolding fall_back
  try_fallback e (none, m) = record { ends = raises e; metrics = m ∷ []; fell_back = false }
  try_fallback e (some request, m) = fall_back e (c.fallback request)

  unfoldable pub after_primary : Option ℤ → LlmRequest Body → Outcome Response → Called Response
  unfolding try_fallback fallback_request
  after_primary remaining request (responds r) = record {
    ends = responds r;
    metrics = [];
    fell_back = false;
  }
  after_primary remaining request (raises e) =
      if is_failover e
      then try_fallback e (fallback_request remaining request)
      else record { ends = raises e; metrics = []; fell_back = false }

  -- generate
  unfoldable pub generate : Option ℤ → LlmRequest Body → Called Response
  unfolding after_primary
  generate remaining request = after_primary remaining request (c.primary request)

  abbrev pub try_fallback_stream : Stream Chunk → Option (LlmRequest Body) → Stream Chunk
  try_fallback_stream s none = s
  try_fallback_stream s (some request) = c.fallback_stream request

  -- The handler of a primary stream that raised before its first chunk.
  unfoldable pub before_first :
      Option ℤ → LlmRequest Body → Stream Chunk → Option Raised → Stream Chunk
  unfolding fallback_request
  before_first remaining request s none = s
  before_first remaining request s (some e) =
      if is_failover e then try_fallback_stream s (fallback_request remaining request).0 else s

  unfoldable pub after_stream :
      Option ℤ → LlmRequest Body → Stream Chunk → List Chunk → Stream Chunk
  unfolding before_first
  after_stream remaining request s [] = before_first remaining request s s.ends
  after_stream remaining request s (x ∷ xs) = s

  -- stream
  unfoldable pub stream : Option ℤ → LlmRequest Body → Stream Chunk
  unfolding after_stream
  stream remaining request =
      let s = c.primary_stream request in after_stream remaining request s s.chunks
