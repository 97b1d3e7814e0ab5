-- ===== src/Runtime/Triple.antt =====
-- A logic of pre- and postconditions for the computations of Runtime/Session.antt, which model
-- server/src/agentic/agents/runtime: one postcondition for a return, one for an exception or a
-- pause.
use juris_ai.Base.{Bool, true, false, ◌≡◌, refl, if◌then◌else◌}
use juris_ai.Runtime.Session.{
  Exn, Session, Outcome, done, raises, paused, exhausted, M, return, after, ◌>>=◌, handle, catch,
  get_session,
}

-- What is true of an end: `Q` of a return, `X` of a raise or a pause.
abbrev pub Post :
    {A : Type 0} → (Session → Type 0) → (A → Session → Type 0) → Outcome A × Session → Type 0
Post X Q (done a, s) = Q a s
Post X Q (raises e, s) = X s
Post X Q (paused, s) = X s
Post X Q (exhausted, s) = ⊥

pub record Triple {A : Type 0} (X P : Session → Type 0) (m : M A) (Q : A → Session → Type 0)
    : Type 0 where
  pub holds : (s : Session) → P s → Post X Q (m s)

module _ {A B : Type 0} {X : Session → Type 0} where
  Post-after :
      {Q : A → Session → Type 0} {R : B → Session → Type 0} {f : A → M B} (x : Outcome A × Session)
      → ((a : A) → Triple X (Q a) (f a) R)
      → Post X Q x
      → Post X R (after f x)
  Post-after (done a, s) h p = (h a).holds s p
  Post-after (raises e, s) h p = p
  Post-after (paused, s) h p = p
  Post-after (exhausted, s) h p = p

  pub bind :
      {P : Session → Type 0} {Q : A → Session → Type 0} {R : B → Session → Type 0} {m : M A}
      {f : A → M B}
      → Triple X P m Q
      → ((a : A) → Triple X (Q a) (f a) R)
      → Triple X P (m >>= f) R
  bind {m = m} t h = record { holds = λ s p. Post-after (m s) h (t.holds s p) }

module _ {A : Type 0} {Q : A → Session → Type 0} where
  Post-handle :
      {X Y : Session → Type 0} {f : Exn → M A} (x : Outcome A × Session)
      → ((s : Session) → Y s → X s)
      → ((e : Exn) → Triple X Y (f e) Q)
      → Post Y Q x
      → Post X Q (handle f x)
  Post-handle (done a, s) w h p = p
  Post-handle (raises e, s) w h p = (h e).holds s p
  Post-handle (paused, s) w h p = w s p
  Post-handle (exhausted, s) w h p = p

  pub catch_rule :
      {P X Y : Session → Type 0} {m : M A} {f : Exn → M A}
      → ((s : Session) → Y s → X s)
      → Triple Y P m Q
      → ((e : Exn) → Triple X Y (f e) Q)
      → Triple X P (catch m f) Q
  catch_rule {m = m} w t h = record { holds = λ s p. Post-handle (m s) w h (t.holds s p) }

  Post-mono :
      {X Y : Session → Type 0} {R : A → Session → Type 0} (x : Outcome A × Session)
      → ((s : Session) → X s → Y s)
      → ((a : A) (s : Session) → Q a s → R a s)
      → Post X Q x
      → Post Y R x
  Post-mono (done a, s) w h p = h a s p
  Post-mono (raises e, s) w h p = w s p
  Post-mono (paused, s) w h p = w s p
  Post-mono (exhausted, s) w h p = p

  -- A stronger precondition, a weaker end
  pub conseq :
      {P X Y O : Session → Type 0} {R : A → Session → Type 0} {m : M A}
      → ((s : Session) → O s → P s)
      → ((s : Session) → X s → Y s)
      → ((a : A) (s : Session) → Q a s → R a s)
      → Triple X P m Q
      → Triple Y O m R
  conseq {m = m} before w h t = record {
    holds = λ s o. Post-mono (m s) w h (t.holds s (before s o));
  }

module _ {A : Type 0} {X P : Session → Type 0} {Q : A → Session → Type 0} where
  pub pure : {a : A} → ((s : Session) → P s → Q a s) → Triple X P (return a) Q
  pure h = record { holds = h }

  pub branch :
      (b : Bool) {m n : M A}
      → (b ≡ true → Triple X P m Q)
      → (b ≡ false → Triple X P n Q)
      → Triple X P (if b then m else n) Q
  branch true t e = t refl
  branch false t e = e refl

pub read_session : {X P : Session → Type 0} → Triple X P get_session (λ t s. (t ≡ s) × P s)
read_session = record { holds = λ s h. (refl, h) }

-- A test that the precondition depends on
pub branch_on :
    {A : Type 0} {X : Session → Type 0} {Q : A → Session → Type 0} (P : Bool → Session → Type 0)
    (b : Bool) {m n : M A}
    → Triple X (P true) m Q
    → Triple X (P false) n Q
    → Triple X (P b) (if b then m else n) Q
branch_on P true t e = t
branch_on P false t e = e

pub Post-if :
    {A : Type 0} (X : Session → Type 0) (Q : A → Session → Type 0) (b : Bool)
    (x y : Outcome A × Session)
    → Post X Q x
    → Post X Q y
    → Post X Q (if b then x else y)
Post-if X Q true x y p q = p
Post-if X Q false x y p q = q

pub Post-if_true :
    {A : Type 0} (X : Session → Type 0) (Q : A → Session → Type 0) (b : Bool)
    (x y : Outcome A × Session)
    → b ≡ true
    → Post X Q x
    → Post X Q (if b then x else y)
Post-if_true X Q true x y e p = p
Post-if_true X Q false x y e p = cc

Post-both :
    {A : Type 0} (X : Session → Type 0) (Q R : A → Session → Type 0) (x : Outcome A × Session)
    → Post X Q x
    → Post X R x
    → Post X (λ a s. Q a s × R a s) x
Post-both X Q R (done a, s) p q = (p, q)
Post-both X Q R (raises e, s) p q = p
Post-both X Q R (paused, s) p q = p
Post-both X Q R (exhausted, s) p q = p

pub both :
    {A : Type 0} {X P : Session → Type 0} {Q R : A → Session → Type 0} {m : M A}
    → Triple X P m Q
    → Triple X P m R
    → Triple X P m (λ a s. Q a s × R a s)
both {X = X} {Q = Q} {R = R} {m = m} t u = record {
  holds = λ s p. Post-both X Q R (m s) (t.holds s p) (u.holds s p);
}
