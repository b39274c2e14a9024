-- ===== src/Auth/Table.antt =====
-- backend/internal/auth/session.go: the table of users, and the service that owns it.
use rongo.Prelude.{
  ℕ, suc, Bool, Option, none, some, List, [], ◌∷◌, ◌++◌, map, Text, text_eq, if◌then◌else◌,
}

pub record User : Type 0 where
  pub id : ℕ
  pub subject : Text
  pub email : Text
  pub is_admin : Bool

-- An upserted user and when the write happened.
pub record Admission : Type 0 where
  pub user : User
  pub at : ℕ

-- `Service`, with the table of users that it owns.
pub record Service : Type 0 where
  pub mode : Text
  pub admin_token : Text
  -- Whether there is a cookie store.
  pub sessions : Bool
  pub oidc_admin_group : Text
  pub proxy_admin_group : Text
  -- Whether the missing groups header was warned of.
  pub warned : Bool
  pub admitted : List (Text × Admission)
  pub upserts : ℕ
  pub users : List User
  pub last_user : ℕ

-- What the database does: the insert fails, the read after it fails, or both succeed.
pub data Answer : Type 0 where
  no_insert : Answer
  no_read : Answer
  answers : Answer

unfoldable pub find_user : Text → List User → Option User
find_user subject [] = none
find_user subject (u ∷ us) =
    let rest = find_user subject us in if text_eq u.subject subject then some u else rest

abbrev pub set_user : Text → Text → Bool → User → User
set_user subject email admin u =
    if text_eq u.subject subject then record u { email = email; is_admin = admin } else u

-- `INSERT INTO users … ON CONFLICT (subject) DO UPDATE`
unfoldable pub insert_user : Text → Text → Bool → Service → Service
unfolding find_user
insert_user subject email admin s = elim (find_user subject s.users) [
  | some u ↦ record s { users = map (set_user subject email admin) s.users }
  | none ↦ record s {
    users =
        s.users
        ++ record { id = suc s.last_user; subject = subject; email = email; is_admin = admin } ∷ [];
    last_user = suc s.last_user;
  }
]

-- `UpsertUser`
unfoldable pub upsert_user : Answer → Text → Text → Bool → Service → Option User × Service
upsert_user no_insert subject email admin s = (none, record s { upserts = suc s.upserts })
upsert_user no_read subject email admin s =
    (none, insert_user subject email admin (record s { upserts = suc s.upserts }))
upsert_user answers subject email admin s =
    let s1 = insert_user subject email admin (record s { upserts = suc s.upserts }) in
    (find_user subject s1.users, s1)
