-- ===== src/Clients/Errors.antt =====
-- Which exceptions server/src/adapters/clients/llm/failover.py catches.
use juris_ai.Base.{true, false, ◌≡◌, refl}
use juris_ai.Clients.Failover.{
  ClientError, rate_limit, timeout, connection, service_unavailable, Raised, client, timed_out,
  other, is_failover, is_fallback_failure,
}

-- The errors of a provider that is down or overloaded, on which the primary is given up.
pub data IsOutage : Raised → Type 0 where
  limited : IsOutage (client rate_limit)
  slow : IsOutage (client timeout)
  unreachable : IsOutage (client connection)
  unavailable : IsOutage (client service_unavailable)

-- The errors of the fallback that are not shown: those of a client, and the end of the time.
pub data IsHidden : Raised → Type 0 where
  of_client : (e : ClientError) → IsHidden (client e)
  of_time : IsHidden timed_out

pub is_failover-true : (e : Raised) → is_failover e ≡ true → IsOutage e
is_failover-true (client rate_limit) h = limited
is_failover-true (client timeout) h = slow
is_failover-true (client connection) h = unreachable
is_failover-true (client service_unavailable) h = unavailable
is_failover-true (client _) h = cc
is_failover-true timed_out h = cc
is_failover-true (other x) h = cc

IsOutage-is_failover : (e : Raised) → IsOutage e → is_failover e ≡ true
IsOutage-is_failover _ limited = refl
IsOutage-is_failover _ slow = refl
IsOutage-is_failover _ unreachable = refl
IsOutage-is_failover _ unavailable = refl

pub is_failover-false : (e : Raised) → is_failover e ≡ false → ¬ IsOutage e
is_failover-false e h out = cc (IsOutage-is_failover e out, h)

pub is_fallback_failure-true : (e : Raised) → is_fallback_failure e ≡ true → IsHidden e
is_fallback_failure-true (client e) h = of_client e
is_fallback_failure-true timed_out h = of_time
is_fallback_failure-true (other x) h = cc

pub is_fallback_failure-false : (e : Raised) → is_fallback_failure e ≡ false → ¬ IsHidden e
is_fallback_failure-false e h hidden = cc (shown e hidden, h)
  where
    shown : (x : Raised) → IsHidden x → is_fallback_failure x ≡ true
    shown _ (of_client e) = refl
    shown _ of_time = refl
