-- ===== src/Auth/Users.antt =====
-- backend/internal/auth/session.go: UpsertUser, and the ids of the users before and after it.
use rongo.Prelude.{
  ℕ, suc, ◌≡◌, refl, ap, ◌∙◌, inl, inr, Bool, Option, none, some, List, [], ◌∷◌, ◌++◌, map, Text,
  text_eq, text_eq_iff, if◌then◌else◌, Bool-cases,
}
use mathlib.Core.Option.{some-injective}
use rongo.Auth.Table.{User, Service, find_user, set_user, insert_user}

-- The id under which a subject has a row.
abbrev pub user_id : Text → List User → Option ℕ
user_id subject [] = none
user_id subject (u ∷ us) =
    let rest = user_id subject us in if text_eq u.subject subject then some u.id else rest

-- The user is the one that was asked for.
pub record IsUser (subject email : Text) (admin : Bool) (u : User) : Type 0 where
  pub subject_is : u.subject ≡ subject
  pub email_is : u.email ≡ email
  pub admin_is : u.is_admin ≡ admin

set_subject :
    (subject email : Text) (admin : Bool) (u : User)
    → (set_user subject email admin u).subject ≡ u.subject
set_subject subject email admin u = elim (Bool-cases (text_eq u.subject subject)) [
  | inl t ↦ rw t refl
  | inr n ↦ rw n refl
]

set_id :
    (subject email : Text) (admin : Bool) (u : User) → (set_user subject email admin u).id ≡ u.id
set_id subject email admin u = elim (Bool-cases (text_eq u.subject subject)) [
  | inl t ↦ rw t refl
  | inr n ↦ rw n refl
]

user_id-set :
    (k subject email : Text) (admin : Bool) (us : List User)
    → user_id k (map (set_user subject email admin) us) ≡ user_id k us
user_id-set k subject email admin [] = refl
user_id-set k subject email admin (u ∷ us) =
    rw (set_subject subject email admin u, set_id subject email admin u)
      (ap (λ (o : Option ℕ). if text_eq u.subject k then some u.id else o)
        (user_id-set k subject email admin us))

user_id-append :
    (k : Text) (us : List User) (new : User) (n : ℕ)
    → user_id k us ≡ some n
    → user_id k (us ++ new ∷ []) ≡ some n
user_id-append k [] new n h = absurd (cc h)
user_id-append k (u ∷ us) new n h = elim (Bool-cases (text_eq u.subject k)) [
  | inl t ↦ rw t (rw t at h)
  | inr f ↦ rw f (user_id-append k us new n (rw f at h))
]

pub find_id :
    (k : Text) (us : List User) (u : User) → find_user k us ≡ some u → user_id k us ≡ some u.id
unfolding find_user
find_id k [] u h = absurd (cc h)
find_id k (x ∷ us) u h = elim (Bool-cases (text_eq x.subject k)) [
  | inl t ↦ rw t (ap (λ (y : User). some y.id) (some-injective x u (rw (find_user, t) at h)))
  | inr f ↦ rw f (find_id k us u (rw (find_user, f) at h))
]

set_found :
    (subject email : Text) (admin : Bool) (us : List User) (u : User)
    → find_user subject us ≡ some u
    → (g : User) × (find_user subject (map (set_user subject email admin) us) ≡ some g)
      × IsUser subject email admin g
unfolding find_user
set_found subject email admin [] u h = absurd (cc h)
set_found subject email admin (x ∷ us) u h = elim (Bool-cases (text_eq x.subject subject)) [
  | inl t ↦ (
    set_user subject email admin x,
    rw (find_user, t, t) refl,
    rw t (record {
      subject_is = (text_eq_iff x.subject subject).0 t;
      email_is = refl;
      admin_is = refl;
    }),
  )
  | inr f ↦
      let (g, e, k) = set_found subject email admin us u (rw (find_user, f) at h) in
      (g, rw (find_user, f, f) e, k)
]

new_found :
    (subject : Text) (us : List User) (new : User)
    → new.subject ≡ subject
    → find_user subject us ≡ none
    → find_user subject (us ++ new ∷ []) ≡ some new
unfolding find_user
new_found subject [] new e h = rw ((text_eq_iff new.subject subject).1 e) refl
new_found subject (x ∷ us) new e h = elim (Bool-cases (text_eq x.subject subject)) [
  | inl t ↦ absurd (cc (rw (find_user, t) at h))
  | inr f ↦ rw (find_user, f) (new_found subject us new e (rw (find_user, f) at h))
]

-- What an upsert leaves: the ids of all that had one, and the row that was asked for.
pub record IsInserted (subject email : Text) (admin : Bool) (s s1 : Service) : Type 0 where
  pub row : User
  pub found : find_user subject s1.users ≡ some row
  pub asked : IsUser subject email admin row
  pub ids : (k : Text) (n : ℕ) → user_id k s.users ≡ some n → user_id k s1.users ≡ some n
  pub admitted : s1.admitted ≡ s.admitted

pub insert_user-IsInserted :
    (subject email : Text) (admin : Bool) (s : Service)
    → IsInserted subject email admin s (insert_user subject email admin s)
unfolding insert_user
insert_user-IsInserted subject email admin s = go (find_user subject s.users) refl
  where
    insert : Option User → Service
    insert o = elim o [
      | some u ↦ record s { users = map (set_user subject email admin) s.users }
      | none ↦ record s {
        users =
            s.users
            ++ record { id = suc s.last_user; subject = subject; email = email; is_admin = admin }
              ∷ [];
        last_user = suc s.last_user;
      }
    ]

    go :
        (o : Option User)
        → find_user subject s.users ≡ o
        → IsInserted subject email admin s (insert o)
    go (some u) e =
        let (g, found, asked) = set_found subject email admin s.users u e in
        record {
          row = g;
          found = found;
          asked = asked;
          ids = λ k n h. user_id-set k subject email admin s.users ∙ h;
          admitted = refl;
        }
    go none e =
        let new : User = record {
          id = suc s.last_user;
          subject = subject;
          email = email;
          is_admin = admin;
        } in
        record {
          row = new;
          found = new_found subject s.users new refl e;
          asked = record { subject_is = refl; email_is = refl; admin_is = refl };
          ids = λ k n h. user_id-append k s.users new n h;
          admitted = refl;
        }
