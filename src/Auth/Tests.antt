-- ===== src/Auth/Tests.antt =====
-- backend/internal/auth: requests to a service behind a proxy, and to one with a token.
use rongo.Prelude.{
  ◌≡◌, ◌≢◌, refl, true, false, none, some, [], ◌∷◌, Text, codes, text_eq, trim_space, is_space,
  arith,
}
use rongo.Auth.Table.{User, Service, no_insert, answers, find_user, insert_user, upsert_user}
use rongo.Auth.{
  login_password, bad_credentials, issued, password_claims, Request, unauthorized, served, Kit,
  admit_written, admit, admit_as, proxy_admin, token_mode, proxy_mode, by_mode, by_session,
  middleware,
}
use rongo.Auth.Cache.{IsSound}
use rongo.Auth.Once.{nothing, by_other, by_upsert, admit_once}
use rongo.Auth.Reach.{at_first, and_then, by_request, reachable-IsSound}
use rongo.Auth.Closed.{Answers, middleware-Answers}

abbrev kit : Kit
kit = record { has_group = λ c g. text_eq g []; match_secret = text_eq }

abbrev service : Text → Service
service mode = record {
  mode = mode;
  admin_token = codes "s3cret";
  sessions = false;
  oidc_admin_group = [];
  proxy_admin_group = codes "ops";
  warned = false;
  admitted = [];
  upserts = 0;
  users = [];
  last_user = 0;
}

abbrev request : Request
request = record {
  cookie = none;
  bearer = none;
  forwarded_user = codes " ada " ∷ [];
  forwarded_email = codes "ada@x" ∷ [];
  forwarded_groups = codes "dev, ops" ∷ [];
}

abbrev ada : User
ada = record { id = 1; subject = codes "ada"; email = codes "ada@x"; is_admin = true }

by_proxy_admin : (middleware kit answers 10 request (service (codes "proxy"))).0 ≡ served ada
unfolding middleware by_session by_mode proxy_mode trim_space is_space admit_as admit proxy_admin
    admit_written upsert_user find_user insert_user
by_proxy_admin = refl

no_token : (middleware kit answers 10 request (service (codes "token"))).0 ≡ unauthorized
unfolding middleware by_session by_mode token_mode
no_token = refl

unknown_mode : (middleware kit answers 10 request (service (codes "none"))).0 ≡ unauthorized
unfolding middleware by_session by_mode
unknown_mode = refl

middleware-Answers_example :
    Answers kit answers
      (service (codes "proxy"))
      request
      (middleware kit answers 10 request (service (codes "proxy")))
middleware-Answers_example = middleware-Answers kit answers 10 request (service (codes "proxy")) tt

abbrev after_write : Service
after_write = (admit answers 10 (codes "ada") (codes "ada@x") true (service (codes "proxy"))).1

first_write :
    admit answers 10 (codes "ada") (codes "ada@x") true (service (codes "proxy"))
    ≡ (some ada, after_write)
unfolding admit admit_written upsert_user find_user insert_user
first_write = refl

wrote : after_write.upserts ≢ 0
unfolding admit admit_written upsert_user find_user insert_user
wrote e = cc e

-- Another user is admitted, and a login writes the first one with another address.
abbrev after_other : Service
after_other =
    (upsert_user answers (codes "ada") (codes "ada@y") false
      ((admit answers 100 (codes "bob") (codes "bob@x") false after_write).1)).1

other_name : codes "ada" ≢ codes "bob"
other_name e = ground (arith, e)

admit_once_example :
    admit no_insert 200 (codes "ada") (codes "ada@x") true after_other ≡ (some ada, after_other)
admit_once_example =
    admit_once answers no_insert 10 200 (codes "ada") (codes "ada@x") true (service (codes "proxy"))
      after_write after_other ada tt first_write wrote
      (by_upsert answers (codes "ada") (codes "ada@y") false
        (by_other answers 100 (codes "bob") (codes "bob@x") false nothing other_name refl))
      refl

reachable-IsSound_example :
    IsSound ((middleware kit answers 10 request (service (codes "proxy"))).1)
reachable-IsSound_example =
    reachable-IsSound kit ((middleware kit answers 10 request (service (codes "proxy"))).1)
      (and_then (at_first refl) (by_request answers 10 request))

wrong_password :
    (login_password answers (some false) (service (codes "password"))).0 ≡ bad_credentials
unfolding login_password
wrong_password = refl

signed_in :
    (login_password answers (some true) (service (codes "password"))).0 ≡ issued password_claims
unfolding login_password upsert_user insert_user find_user
signed_in = refl
