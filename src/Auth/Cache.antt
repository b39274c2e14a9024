-- ===== src/Auth/Cache.antt =====
-- backend/internal/auth/session.go: Admit, which answers from memory or writes the user.
use rongo.Prelude.{
  ℕ, suc, ◌≡◌, ◌≢◌, refl, sym, inl, inr, Bool, true, false, not, Option, none, some, List, [], ◌∷◌,
  Text, text_eq, text_eq_iff, if◌then◌else◌, Bool-cases, All, arith,
}
use mathlib.Core.Path.{subst}
use mathlib.Core.Option.{some-injective}
use rongo.Prelude.Filters.{All-filter, All-map}
use rongo.Prelude.Fallible.{Option-cases}
use rongo.Auth.Table.{
  User, Admission, Service, Answer, no_insert, no_read, answers, insert_user, upsert_user,
}
use rongo.Auth.{find_admitted, still_stands, admit_written, admit}
use rongo.Auth.Users.{user_id, IsUser, find_id, insert_user-IsInserted}

-- What is remembered of a subject is its user, by the id of its row.
abbrev pub IsKnown : List User → Text × Admission → Type 0
IsKnown users e = (e.1.user.subject ≡ e.0) × (user_id e.0 users ≡ some e.1.user.id)

abbrev pub IsSound : Service → Type 0
IsSound s = All (IsKnown s.users) s.admitted

-- The answer of an admission: the user that was asked for, under the id of its row, or an error of the
-- database.
abbrev pub Admits : Answer → (subject email : Text) → Bool → Option User × Service → Type 0
Admits reply subject email admin (none, s) = (reply ≢ answers) × IsSound s
Admits reply subject email admin (some u, s) =
    IsUser subject email admin u × (user_id subject s.users ≡ some u.id) × IsSound s

found-IsKnown :
    (users : List User) (subject : Text) (es : List (Text × Admission)) (a : Admission)
    → All (IsKnown users) es
    → find_admitted subject es ≡ some a
    → IsKnown users (subject, a)
unfolding find_admitted
found-IsKnown users subject [] a h e = absurd (cc e)
found-IsKnown users subject ((k, b) ∷ es) a h e = elim (Bool-cases (text_eq k subject)) [
  | inl t ↦ rw (← (text_eq_iff k subject).0 t) (
      subst (λ (x : Admission). IsKnown users (k, x))
        (some-injective b a (rw (find_admitted, t) at e)) h.0)
  | inr f ↦ found-IsKnown users subject es a h.1 (rw (find_admitted, f) at e)
]

same_flag : (a b : Bool) → (if a then b else not b) ≡ true → b ≡ a
same_flag true b h = h
same_flag false true h = sym h
same_flag false false h = refl

stands-IsUser :
    (now : ℕ) (subject email : Text) (admin : Bool) (a : Admission)
    → a.user.subject ≡ subject
    → still_stands now email admin a ≡ true
    → IsUser subject email admin a.user
stands-IsUser now subject email admin a e h =
    let mail : text_eq a.user.email email ≡ true = ground (arith, h) in
    let flag : (if admin then a.user.is_admin else not a.user.is_admin) ≡ true =
      ground (arith, h) in
    record {
      subject_is = e;
      email_is = (text_eq_iff a.user.email email).0 mail;
      admin_is = same_flag admin a.user.is_admin flag;
    }

after-IsSound :
    (s s1 : Service)
    → ((k : Text) (n : ℕ) → user_id k s.users ≡ some n → user_id k s1.users ≡ some n)
    → s1.admitted ≡ s.admitted
    → IsSound s
    → IsSound s1
after-IsSound s s1 ids same h =
    subst (All (IsKnown s1.users)) (sym same)
      (All-map s.admitted (λ e k. (k.0, ids e.0 e.1.user.id k.1)) h)

pub upsert-Admits :
    (reply : Answer) (subject email : Text) (admin : Bool) (s : Service)
    → IsSound s
    → Admits reply subject email admin (upsert_user reply subject email admin s)
unfolding upsert_user
upsert-Admits no_insert subject email admin s h = ((λ e. cc e), h)
upsert-Admits no_read subject email admin s h =
    let k = insert_user-IsInserted subject email admin (record s { upserts = suc s.upserts }) in
    (
      (λ e. cc e),
      after-IsSound s (insert_user subject email admin (record s { upserts = suc s.upserts })) k.ids
          k.admitted h,
    )
upsert-Admits answers subject email admin s h =
    let s1 = insert_user subject email admin (record s { upserts = suc s.upserts }) in
    let k = insert_user-IsInserted subject email admin (record s { upserts = suc s.upserts }) in
    rw k.found
      (k.asked, find_id subject s1.users k.row k.found, after-IsSound s s1 k.ids k.admitted h)

written-Admits :
    (reply : Answer) (now : ℕ) (subject email : Text) (admin : Bool) (r : Option User × Service)
    → Admits reply subject email admin r
    → Admits reply subject email admin (admit_written now subject r)
unfolding admit_written
written-Admits reply now subject email admin (none, s) h = h
written-Admits reply now subject email admin (some u, s) (asked, id, sound) =
    (asked, id, ((asked.subject_is, id), All-filter (IsKnown s.users) _ s.admitted sound))

pub admit-Admits :
    (reply : Answer) (now : ℕ) (subject email : Text) (admin : Bool) (s : Service)
    → IsSound s
    → Admits reply subject email admin (admit reply now subject email admin s)
unfolding admit
admit-Admits reply now subject email admin s h =
    let write =
      written-Admits reply now subject email admin _
        (upsert-Admits reply subject email admin s h) in
    elim (Option-cases (find_admitted subject s.admitted)) [
      | inl n ↦ rw (admit, n) write
      | inr (a, e) ↦
          let known = found-IsKnown s.users subject s.admitted a h e in
          rw (admit, e)
            (elim (Bool-cases (still_stands now email admin a)) [
              | inl t ↦ rw t (stands-IsUser now subject email admin a known.0 t, known.1, h)
              | inr f ↦ rw f write
            ])
    ]
