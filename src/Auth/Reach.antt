-- ===== src/Auth/Reach.antt =====
-- backend/internal/auth: every state that requests and logins lead the service to, in whatever order.
use rongo.Prelude.{
  ℕ, ◌≡◌, sym, inl, inr, Bool, true, not, ◌||◌, Option, none, some, [], Text, codes, text_eq,
  Bool-cases, All,
}
use mathlib.Core.Path.{subst}
use rongo.Auth.Table.{User, Service, Answer, upsert_user}
use rongo.Auth.{
  Claims, Request, Response, unauthorized, server_error, served, Kit, password_subject, middleware,
  login_password, admit_claims,
}
use rongo.Auth.Cache.{IsSound, IsKnown, Admits, upsert-Admits}
use rongo.Auth.Closed.{Answers, middleware-Answers}

module _ (kit : Kit) where
  pub data IsStep : Service → Service → Type 0 where
    by_request :
        (reply : Answer) (now : ℕ) (r : Request) {s : Service}
        → IsStep s ((middleware kit reply now r s).1)
    by_login :
        (reply : Answer) (check : Option Bool) {s : Service}
        → IsStep s ((login_password reply check s).1)
    by_claims :
        (reply : Answer) (c : Claims) {s : Service} → IsStep s ((admit_claims kit reply c s).1)

  -- From a service that remembers nobody, whatever its settings and its users.
  pub data IsReachable : Service → Type 0 where
    at_first : {s : Service} → s.admitted ≡ [] → IsReachable s
    and_then : {s s1 : Service} → IsReachable s → IsStep s s1 → IsReachable s1

  answers-IsSound :
      (reply : Answer) (s : Service) (r : Request) (o : Response × Service)
      → Answers kit reply s r o
      → IsSound (o.1)
  answers-IsSound reply s r (unauthorized, s1) h = h.1
  answers-IsSound reply s r (server_error, s1) h = h.2
  answers-IsSound reply s r (served u, s1) h = h.1

Admits-IsSound :
    (reply : Answer) (subject email : Text) (admin : Bool) (o : Option User × Service)
    → Admits reply subject email admin o
    → IsSound (o.1)
Admits-IsSound reply subject email admin (none, s) h = h.1
Admits-IsSound reply subject email admin (some u, s) h = h.2

upsert-IsSound :
    (reply : Answer) (subject email : Text) (admin : Bool) (s : Service)
    → IsSound s
    → IsSound ((upsert_user reply subject email admin s).1)
upsert-IsSound reply subject email admin s h =
    Admits-IsSound reply subject email admin (upsert_user reply subject email admin s)
      (upsert-Admits reply subject email admin s h)

login-IsSound :
    (reply : Answer) (check : Option Bool) (s : Service)
    → IsSound s
    → IsSound ((login_password reply check s).1)
unfolding login_password
login-IsSound reply none s h = h
login-IsSound reply (some right) s h =
    elim (Bool-cases (not (text_eq s.mode (codes "password")) || not right)) [
      | inl t ↦ rw (login_password, t) h
      | inr f ↦ rw (login_password, f) (upsert-IsSound reply password_subject [] true s h)
    ]

module _ (kit : Kit) where
  claims-IsSound :
      (reply : Answer) (c : Claims) (s : Service)
      → IsSound s
      → IsSound ((admit_claims kit reply c s).1)
  unfolding admit_claims
  claims-IsSound reply c s h = elim (Bool-cases (text_eq c.subject [])) [
    | inl t ↦ rw (admit_claims, t) h
    | inr f ↦
        rw (admit_claims, f)
          (upsert-IsSound reply c.subject c.email (kit.has_group c s.oidc_admin_group) s h)
  ]

  step-IsSound : {s s1 : Service} → IsStep kit s s1 → IsSound s → IsSound s1
  step-IsSound (by_request reply now r {s}) h =
      answers-IsSound kit reply s r (middleware kit reply now r s)
        (middleware-Answers kit reply now r s h)
  step-IsSound (by_login reply check {s}) h = login-IsSound reply check s h
  step-IsSound (by_claims reply c {s}) h = claims-IsSound reply c s h

  -- In every state that requests, password logins and admissions of claims lead to, in any order and with any
  -- failures of the database, from a service that remembers nobody, each remembered user is that of the
  -- subject it is remembered for, with the id of the subject's row in the table of users.
  pub reachable-IsSound : (s : Service) → IsReachable kit s → IsSound s
  reachable-IsSound s (at_first e) = subst (All (IsKnown s.users)) (sym e) tt
  reachable-IsSound s (and_then r c) = step-IsSound c (reachable-IsSound _ r)
