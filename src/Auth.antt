-- ===== src/Auth.antt =====
-- backend/internal/auth: who a request comes from (middleware.go), and the users it is admitted as
-- (session.go). Time is what the clock shows, in seconds.
pub mod Table
pub mod Users
pub mod Cache
pub mod Closed
pub mod Once
pub mod Reach
mod Tests
use rongo.Prelude.{
  ℕ, suc, ◌+◌, ◌-◌, Bool, true, false, not, ◌&&◌, ◌||◌, Option, none, some, List, [], ◌∷◌, ◌++◌,
  map, Text, codes, text_eq, text_in, trim_space, split_on, filter, ltb, if◌then◌else◌,
}
use rongo.Auth.Table.{
  User, Admission, Service, Answer, no_insert, no_read, answers, find_user, set_user, insert_user,
  upsert_user,
}

-- The claims of a session, from the package kit.
pub record Claims : Type 0 where
  pub subject : Text
  pub email : Text
  pub groups : List Text

-- What the middleware reads of a request: the claims of a session cookie that is valid, the bearer token, the
-- values of the proxy's headers.
pub record Request : Type 0 where
  pub cookie : Option Claims
  pub bearer : Option Text
  pub forwarded_user : List Text
  pub forwarded_email : List Text
  pub forwarded_groups : List Text

pub data Response : Type 0 where
  unauthorized : Response
  server_error : Response
  served : User → Response

-- What the package kit answers: `Claims.HasGroup` and `secret.Match`.
pub record Kit : Type 0 where
  pub has_group : Claims → Text → Bool
  pub match_secret : Text → Text → Bool

abbrev pub admit_ttl : ℕ
admit_ttl = 300

abbrev pub dev_subject : Text
dev_subject = codes "dev-user"

abbrev pub password_subject : Text
password_subject = codes "admin-password"

unfoldable pub find_admitted : Text → List (Text × Admission) → Option Admission
find_admitted subject [] = none
find_admitted subject ((k, a) ∷ rest) =
    let later = find_admitted subject rest in if text_eq k subject then some a else later

abbrev pub is_fresh : ℕ → Admission → Bool
is_fresh now a = ltb (now - a.at) admit_ttl

-- The test of the first lock.
abbrev pub still_stands : ℕ → Text → Bool → Admission → Bool
still_stands now email admin a =
    is_fresh now a
    && text_eq a.user.email email
    && (if admin then a.user.is_admin else not a.user.is_admin)

-- The second lock: the old ones go, and the subject's is set.
unfoldable pub remember : ℕ → Text → User → Service → Service
remember now subject u s = record s {
  admitted =
      (subject, record { user = u; at = now })
      ∷ filter (λ (e : Text × Admission). is_fresh now e.1 && not (text_eq e.0 subject)) s.admitted;
}

unfoldable pub admit_written : ℕ → Text → Option User × Service → Option User × Service
unfolding remember
admit_written now subject (none, s) = (none, s)
admit_written now subject (some u, s) = (some u, remember now subject u s)

-- `Admit`
unfoldable pub admit : Answer → ℕ → Text → Text → Bool → Service → Option User × Service
unfolding find_admitted
admit reply now subject email admin s =
    let write = admit_written now subject (upsert_user reply subject email admin s) in
    elim (find_admitted subject s.admitted) [
      | some a ↦ if still_stands now email admin a then (some a.user, s) else write
      | none ↦ write
    ]

-- `r.Header.Get`
abbrev pub first_value : List Text → Text
first_value [] = []
first_value (v ∷ vs) = v

-- `isAdmin`
abbrev pub is_admin_in : List Text → Text → Bool
is_admin_in groups admin_group = text_eq admin_group [] || text_in admin_group groups

-- `proxyGroups`
unfoldable pub proxy_groups : Request → List Text
unfolding split_on trim_space
proxy_groups r =
    filter (λ (g : Text). not (text_eq g []))
      (map trim_space (split_on b',' (first_value r.forwarded_groups)))

abbrev pub no_values : List Text → Bool
no_values [] = true
no_values (v ∷ vs) = false

-- `proxyAdmin`, and the service with the warning given.
unfoldable pub proxy_admin : Request → Service → Bool × Service
unfolding proxy_groups text_in
proxy_admin r s =
    if text_eq s.proxy_admin_group []
    then (true, s)
    else if no_values r.forwarded_groups
    then (false, record s { warned = true })
    else (is_admin_in (proxy_groups r) s.proxy_admin_group, s)

-- `admitAs`
unfoldable pub admit_as : Answer → ℕ → Text → Text → Bool → Service → Response × Service
admit_as reply now subject email admin s =
    let (o, s1) = admit reply now subject email admin s in
    (elim o [ none ↦ server_error | some u ↦ served u ], s1)

-- `s.sessions.Read`, where there is a cookie store.
abbrev pub read_session : Service → Request → Option Claims
read_session s r = if s.sessions then r.cookie else none

module _ (kit : Kit) where
  -- Admin by the claims of a session.
  abbrev pub session_admin : Service → Claims → Bool
  session_admin s c =
      (text_eq s.mode (codes "password") && text_eq c.subject password_subject)
      || kit.has_group c s.oidc_admin_group

  -- Mode token.
  unfoldable pub token_mode : Answer → ℕ → Option Text → Service → Response × Service
  token_mode reply now none s = (unauthorized, s)
  token_mode reply now (some presented) s =
      if kit.match_secret presented s.admin_token
      then admit_as reply now (codes "admin-token") [] true s
      else (unauthorized, s)

  -- Mode proxy, with the trimmed headers.
  unfoldable pub proxy_mode :
      Answer → ℕ → (subject email : Text) → Request → Service → Response × Service
  proxy_mode reply now subject email r s =
      let (admin, s1) = proxy_admin r s in
      if text_eq subject [] then (unauthorized, s) else admit_as reply now subject email admin s1

  -- The switch over the modes.
  unfoldable pub by_mode : Answer → ℕ → Request → Service → Response × Service
  by_mode reply now r s =
      if text_eq s.mode (codes "dev")
      then admit_as reply now dev_subject (codes "dev@example.invalid") true s
      else if text_eq s.mode (codes "token")
      then token_mode reply now r.bearer s
      else if text_eq s.mode (codes "proxy")
      then proxy_mode reply now (trim_space (first_value r.forwarded_user))
          (trim_space (first_value r.forwarded_email)) r s
      else (unauthorized, s)

  unfoldable pub by_session : Answer → ℕ → Option Claims → Request → Service → Response × Service
  by_session reply now (some c) r s = admit_as reply now c.subject c.email (session_admin s c) s
  by_session reply now none r s = by_mode reply now r s

  -- `Middleware`
  unfoldable pub middleware : Answer → ℕ → Request → Service → Response × Service
  middleware reply now r s = by_session reply now (read_session s r) r s

pub data Login : Type 0 where
  bad_credentials : Login
  login_failed : Login
  -- The claims of the session to issue.
  issued : Claims → Login

-- The claims of the one account of password mode.
abbrev pub password_claims : Claims
password_claims = record { subject = password_subject; email = []; groups = [] }

-- `LoginPassword`, on what the verifier says of the form, `none` if there is no verifier.
unfoldable pub login_password : Answer → Option Bool → Service → Login × Service
login_password reply check s =
    let (o, s1) = upsert_user reply password_subject [] true s in
    elim check [
      | none ↦ (bad_credentials, s)
      | some right ↦
          if not (text_eq s.mode (codes "password")) || not right
          then (bad_credentials, s)
          else (elim o [ none ↦ login_failed | some u ↦ issued password_claims ], s1)
    ]

-- `AdmitClaims`; `none` is an error.
unfoldable pub admit_claims : Kit → Answer → Claims → Service → Option User × Service
admit_claims kit reply c s =
    if text_eq c.subject []
    then (none, s)
    else upsert_user reply c.subject c.email (kit.has_group c s.oidc_admin_group) s
