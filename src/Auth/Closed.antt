-- ===== src/Auth/Closed.antt =====
-- backend/internal/auth/middleware.go: which requests are served, and as whom.
use rongo.Prelude.{
  ℕ, ◌≡◌, ◌≢◌, refl, sym, ap, ◌∙◌, inl, inr, Bool, true, false, Option, none, some, [], Text, codes,
  text_eq, text_eq_iff, trim_space, Bool-cases,
}
use mathlib.Core.Option.{some-injective}
use mathlib.Core.Bool.{true≢false}
use rongo.Prelude.Fallible.{none_or_some}
use rongo.Auth.Table.{User, Service, Answer, answers}
use rongo.Auth.{
  Claims, Request, Response, unauthorized, server_error, served, Kit, dev_subject, first_value,
  proxy_admin, no_values, admit, admit_as, read_session, session_admin, by_session, token_mode,
  proxy_mode, by_mode, middleware,
}
use rongo.Auth.Cache.{IsSound, Admits, admit-Admits}

-- No session is read.
abbrev IsSessionless : Service → Request → Type 0
IsSessionless s r = read_session s r ≡ none

apart : (a b m : Text) → text_eq a b ≡ false → m ≡ a → m ≢ b
apart a b m d e f = absurd (true≢false (sym ((text_eq_iff a b).1 (sym e ∙ f)) ∙ d))

module _ (kit : Kit) where
  -- How a caller is identified, with the subject, the email and the admin flag that it is admitted with.
  pub data Identifies (s : Service) (r : Request) : Text → Text → Bool → Type 0 where
    by_cookie :
        (c : Claims)
        → read_session s r ≡ some c
        → Identifies s r c.subject c.email (session_admin kit s c)
    as_dev :
        IsSessionless s r
        → s.mode ≡ codes "dev"
        → Identifies s r dev_subject (codes "dev@example.invalid") true
    by_token :
        (presented : Text)
        → IsSessionless s r
        → s.mode ≡ codes "token"
        → r.bearer ≡ some presented
        → kit.match_secret presented s.admin_token ≡ true
        → Identifies s r (codes "admin-token") [] true
    by_proxy :
        IsSessionless s r
        → s.mode ≡ codes "proxy"
        → text_eq (trim_space (first_value r.forwarded_user)) [] ≡ false
        → Identifies s r
            (trim_space (first_value r.forwarded_user))
            (trim_space (first_value r.forwarded_email))
            ((proxy_admin r s).0)

  abbrev pub Answers : Answer → Service → Request → Response × Service → Type 0
  Answers reply s r (unauthorized, s1) =
      ((subject email : Text) (admin : Bool) → ¬ Identifies s r subject email admin) × IsSound s1
  Answers reply s r (server_error, s1) =
      ((subject : Text) × (email : Text) × (admin : Bool) × Identifies s r subject email admin)
      × (reply ≢ answers)
      × IsSound s1
  Answers reply s r (served u, s1) = Identifies s r u.subject u.email u.is_admin × IsSound s1

  admit_as-Answers :
      (reply : Answer) (now : ℕ) (subject email : Text) (admin : Bool) (s s0 : Service)
      (r : Request)
      → IsSound s
      → Identifies s0 r subject email admin
      → Answers reply s0 r (admit_as reply now subject email admin s)
  unfolding admit_as
  admit_as-Answers reply now subject email admin s s0 r h i =
      go (admit reply now subject email admin s) (admit-Admits reply now subject email admin s h)
    where
      go :
          (o : Option User × Service)
          → Admits reply subject email admin o
          → Answers reply s0 r (elim o.0 [ none ↦ server_error | some u ↦ served u ], o.1)
      go (none, s1) (n, sound) = ((subject, email, admin, i), n, sound)
      go (some u, s1) (asked, id, sound) =
          (rw (asked.subject_is, asked.email_is, asked.admin_is) i, sound)

  Identifies-not :
      (s : Service) (r : Request)
      → IsSessionless s r
      → (s.mode ≢ codes "dev")
      → ((presented : Text)
          → s.mode ≡ codes "token"
          → r.bearer ≡ some presented
          → kit.match_secret presented s.admin_token ≢ true)
      → (s.mode ≡ codes "proxy" → text_eq (trim_space (first_value r.forwarded_user)) [] ≢ false)
      → (subject email : Text) (admin : Bool) → ¬ Identifies s r subject email admin
  Identifies-not s r n d t p subject email admin (by_cookie c e) =
      none_or_some (read_session s r) c n e
  Identifies-not s r n d t p subject email admin (as_dev _ m) = d m
  Identifies-not s r n d t p subject email admin (by_token presented _ m b k) = t presented m b k
  Identifies-not s r n d t p subject email admin (by_proxy _ m k) = p m k

  token_mode-Answers :
      (reply : Answer) (now : ℕ) (r : Request) (s : Service)
      → IsSound s
      → IsSessionless s r
      → s.mode ≡ codes "token"
      → Answers reply s r (token_mode kit reply now r.bearer s)
  unfolding token_mode
  token_mode-Answers reply now r s h n m = go r.bearer refl
    where
      refuse :
          ((presented : Text)
            → r.bearer ≡ some presented
            → kit.match_secret presented s.admin_token ≢ true)
          → (subject email : Text) (admin : Bool) → ¬ Identifies s r subject email admin
      refuse k =
          Identifies-not s r n (apart (codes "token") (codes "dev") s.mode refl m)
            (λ presented _ b. k presented b)
            (λ p _. apart (codes "token") (codes "proxy") s.mode refl m p)

      go : (b : Option Text) → r.bearer ≡ b → Answers reply s r (token_mode kit reply now b s)
      go none e = (refuse (λ presented b. absurd (none_or_some r.bearer presented e b)), h)
      go (some presented) e = elim (Bool-cases (kit.match_secret presented s.admin_token)) [
        | inl t ↦
            rw (token_mode, t)
              (admit_as-Answers reply now (codes "admin-token") [] true s s r h
                (by_token presented n m e t))
        | inr f ↦
            rw (token_mode, f)
              (
                refuse (λ q b k. true≢false (
                    sym k
                    ∙ ap (λ x. kit.match_secret x s.admin_token)
                        (some-injective q presented (sym b ∙ e))
                    ∙ f)),
                h,
              )
      ]

  proxy-IsSound : (s : Service) (r : Request) → IsSound s → IsSound ((proxy_admin r s).1)
  unfolding proxy_admin
  proxy-IsSound s r h = elim (Bool-cases (text_eq s.proxy_admin_group [])) [
    | inl t ↦ rw (proxy_admin, t) h
    | inr f ↦ elim (Bool-cases (no_values r.forwarded_groups)) [
      | inl t ↦ rw (proxy_admin, f, t) h
      | inr g ↦ rw (proxy_admin, f, g) h
    ]
  ]

  proxy_mode-Answers :
      (reply : Answer) (now : ℕ) (r : Request) (s : Service)
      → IsSound s
      → IsSessionless s r
      → s.mode ≡ codes "proxy"
      → Answers reply s r (
          proxy_mode kit reply now
            (trim_space (first_value r.forwarded_user))
            (trim_space (first_value r.forwarded_email))
            r
            s)
  unfolding proxy_mode
  proxy_mode-Answers reply now r s h n m =
      let subject = trim_space (first_value r.forwarded_user) in
      let email = trim_space (first_value r.forwarded_email) in
      elim (Bool-cases (text_eq subject [])) [
        | inl t ↦
            rw (proxy_mode, t)
              (
                Identifies-not s r n (apart (codes "proxy") (codes "dev") s.mode refl m)
                    (λ presented e. absurd (apart (codes "proxy") (codes "token") s.mode refl m e))
                    (λ p k. true≢false (sym t ∙ k)),
                h,
              )
        | inr f ↦
            rw (proxy_mode, f)
              (admit_as-Answers reply now subject email ((proxy_admin r s).0) ((proxy_admin r s).1)
                s r (proxy-IsSound s r h) (by_proxy n m f))
      ]

  by_mode-Answers :
      (reply : Answer) (now : ℕ) (r : Request) (s : Service)
      → IsSound s
      → IsSessionless s r
      → Answers reply s r (by_mode kit reply now r s)
  unfolding by_mode
  by_mode-Answers reply now r s h n =
      let is = λ (m : Text) (t : text_eq s.mode m ≡ true). (text_eq_iff s.mode m).0 t in
      let not = λ (m : Text) (f : text_eq s.mode m ≡ false) (e : s.mode ≡ m).
        true≢false (sym ((text_eq_iff s.mode m).1 e) ∙ f) in
      elim (Bool-cases (text_eq s.mode (codes "dev"))) [
        | inl t ↦
            rw (by_mode, t)
              (admit_as-Answers reply now dev_subject (codes "dev@example.invalid") true s s r h
                (as_dev n (is (codes "dev") t)))
        | inr d ↦ elim (Bool-cases (text_eq s.mode (codes "token"))) [
          | inl t ↦ rw (by_mode, d, t) (token_mode-Answers reply now r s h n (is (codes "token") t))
          | inr k ↦ elim (Bool-cases (text_eq s.mode (codes "proxy"))) [
            | inl t ↦
                rw (by_mode, d, k, t) (proxy_mode-Answers reply now r s h n (is (codes "proxy") t))
            | inr p ↦
                rw (by_mode, d, k, p)
                  (
                    Identifies-not s r n (not (codes "dev") d)
                        (λ presented e. absurd (not (codes "token") k e))
                        (λ e. absurd (not (codes "proxy") p e)),
                    h,
                  )
          ]
        ]
      ]

  -- A request is answered 401 exactly when nothing identifies its caller: no session that the service reads,
  -- and in its mode no development login, no matching token and no user from the proxy. An identified caller
  -- is served as the subject, with the email and the admin flag, that identified it, remembered or written;
  -- the one other answer is a server error, and only if the database fails.
  pub middleware-Answers :
      (reply : Answer) (now : ℕ) (r : Request) (s : Service)
      → IsSound s
      → Answers reply s r (middleware kit reply now r s)
  unfolding middleware by_session
  middleware-Answers reply now r s h = go (read_session s r) refl
    where
      go :
          (o : Option Claims)
          → read_session s r ≡ o
          → Answers reply s r (by_session kit reply now o r s)
      go none e = by_mode-Answers reply now r s h e
      go (some c) e =
          admit_as-Answers reply now c.subject c.email (session_admin kit s c) s s r h
            (by_cookie c e)
