-- ===== src/Auth/Once.antt =====
-- backend/internal/auth/session.go: how long an admission is answered from memory, while others are
-- admitted and users are written.
use rongo.Prelude.{
  ℕ, suc, ◌-◌, ◌≡◌, ◌≢◌, refl, sym, ap, ◌∙◌, inl, inr, Bool, true, false, not, ◌&&◌, Option, none,
  some, List, [], ◌∷◌, Text, text_eq, text_eq_iff, if◌then◌else◌, Bool-cases, ltb, filter,
}
use mathlib.Core.Path.{subst}
use mathlib.Core.Option.{some-injective}
use rongo.Prelude.Fallible.{Option-cases, none_or_some}
use rongo.Auth.Table.{User, Admission, Service, Answer, no_insert, no_read, answers, upsert_user}
use rongo.Auth.{find_admitted, is_fresh, still_stands, remember, admit_written, admit, admit_ttl}
use rongo.Auth.Users.{IsUser, insert_user-IsInserted}
use rongo.Auth.Cache.{IsSound, Admits, admit-Admits}

flag_self : (a b : Bool) → b ≡ a → (if a then b else not b) ≡ true
flag_self true b h = h
flag_self false b h = rw h refl

-- What is remembered of a subject is this admission.
abbrev Stands : Text → Admission → Service → Type 0
Stands subject a s = find_admitted subject s.admitted ≡ some a

admit_again :
    (again : Answer) (later : ℕ) (subject email : Text) (admin : Bool) (u : User) (now : ℕ)
    (s : Service)
    → IsUser subject email admin u
    → ltb (later - now) admit_ttl ≡ true
    → Stands subject (record { user = u; at = now }) s
    → admit again later subject email admin s ≡ (some u, s)
unfolding admit
admit_again again later subject email admin u now s asked fresh found =
    let mail : text_eq u.email email ≡ true = (text_eq_iff u.email email).1 asked.email_is in
    let flag : (if admin then u.is_admin else not u.is_admin) ≡ true =
      flag_self admin u.is_admin asked.admin_is in
    rw (admit, found, fresh, mail, flag) refl

remember-Stands :
    (now : ℕ) (subject : Text) (u : User) (s : Service)
    → Stands subject (record { user = u; at = now }) (remember now subject u s)
unfolding remember find_admitted
remember-Stands now subject u s = rw (find_admitted, (text_eq_iff subject subject).1 refl) refl

other_key : (k subject : Text) → k ≢ subject → text_eq k subject ≡ false
other_key k subject h = elim (Bool-cases (text_eq k subject)) [
  | inl t ↦ absurd (h ((text_eq_iff k subject).0 t))
  | inr f ↦ f
]

-- The eviction for another subject keeps a fresh admission.
find_admitted-filter :
    (now : ℕ) (other subject : Text) (a : Admission) (es : List (Text × Admission))
    → subject ≢ other
    → is_fresh now a ≡ true
    → find_admitted subject es ≡ some a
    → find_admitted subject
        (filter (λ (e : Text × Admission). is_fresh now e.1 && not (text_eq e.0 other)) es)
      ≡ some a
unfolding find_admitted
find_admitted-filter now other subject a [] ne fresh e = e
find_admitted-filter now other subject a ((k, b) ∷ es) ne fresh e =
    elim (Bool-cases (text_eq k subject)) [
      | inl t ↦
          let same : b ≡ a = some-injective b a (rw (find_admitted, t) at e) in
          let kept : is_fresh now b ≡ true = rw same fresh in
          let key : text_eq k other ≡ false =
            other_key k other (λ q. ne (sym ((text_eq_iff k subject).0 t) ∙ q)) in
          rw (filter, kept, key, find_admitted, t) (ap some same)
      | inr f ↦
          let later =
            find_admitted-filter now other subject a es ne fresh (rw (find_admitted, f) at e) in
          elim (Bool-cases (is_fresh now b && not (text_eq k other))) [
            | inl t ↦ rw (t, find_admitted, f) later
            | inr g ↦ rw g later
          ]
    ]

write_remembers :
    (now : ℕ) (subject : Text) (o : Option User) (s0 s1 : Service) (u : User)
    → admit_written now subject (o, s0) ≡ (some u, s1)
    → s1 ≡ remember now subject u s0
unfolding admit_written
write_remembers now subject none s0 s1 u e =
    absurd (none_or_some none u refl (ap (λ (r : Option User × Service). r.0) e))
write_remembers now subject (some v) s0 s1 u e =
    let same = some-injective v u (ap (λ (r : Option User × Service). r.0) e) in
    sym (ap (λ (r : Option User × Service). r.1) e)
    ∙ ap (λ (x : User). remember now subject x s0) same

upsert-admitted :
    (reply : Answer) (k email : Text) (admin : Bool) (s : Service)
    → ((upsert_user reply k email admin s).1).admitted ≡ s.admitted
unfolding upsert_user
upsert-admitted no_insert k email admin s = refl
upsert-admitted no_read k email admin s =
    (insert_user-IsInserted k email admin (record s { upserts = suc s.upserts })).admitted
upsert-admitted answers k email admin s =
    (insert_user-IsInserted k email admin (record s { upserts = suc s.upserts })).admitted

written-Stands :
    (now : ℕ) (other subject : Text) (a : Admission) (r : Option User × Service)
    → subject ≢ other
    → is_fresh now a ≡ true
    → Stands subject a r.1
    → Stands subject a ((admit_written now other r).1)
unfolding admit_written remember find_admitted
written-Stands now other subject a (none, s) ne fresh h = h
written-Stands now other subject a (some u, s) ne fresh h =
    rw (find_admitted, other_key other subject (λ q. ne (sym q)))
      (find_admitted-filter now other subject a s.admitted ne fresh h)

admit-Stands :
    (reply : Answer) (now : ℕ) (other subject email : Text) (admin : Bool) (a : Admission)
    (s : Service)
    → subject ≢ other
    → is_fresh now a ≡ true
    → Stands subject a s
    → Stands subject a ((admit reply now other email admin s).1)
unfolding admit
admit-Stands reply now other subject email admin a s ne fresh h =
    let write =
      written-Stands now other subject a (upsert_user reply other email admin s) ne fresh
        (ap (find_admitted subject) (upsert-admitted reply other email admin s) ∙ h) in
    elim (Option-cases (find_admitted other s.admitted)) [
      | inl n ↦ rw (admit, n) write
      | inr (b, e) ↦
          rw (admit, e)
            (elim (Bool-cases (still_stands now email admin b)) [
              | inl t ↦ rw t h
              | inr f ↦ rw f write
            ])
    ]

-- What can happen to the service within the interval after an admission at `start`: the same caller
-- comes again, others are admitted, and users are written, by a login too, whatever the database does.
pub data Meanwhile (start : ℕ) (subject email : Text) (admin : Bool) (s : Service)
    : Service → Type 0 where
  nothing : Meanwhile start subject email admin s s
  by_same :
      {t : Service} (reply : Answer) (now : ℕ)
      → Meanwhile start subject email admin s t
      → ltb (now - start) admit_ttl ≡ true
      → Meanwhile start subject email admin s ((admit reply now subject email admin t).1)
  by_other :
      {t : Service} (reply : Answer) (now : ℕ) (other mail : Text) (flag : Bool)
      → Meanwhile start subject email admin s t
      → subject ≢ other
      → ltb (now - start) admit_ttl ≡ true
      → Meanwhile start subject email admin s ((admit reply now other mail flag t).1)
  by_upsert :
      {t : Service} (reply : Answer) (k mail : Text) (flag : Bool)
      → Meanwhile start subject email admin s t
      → Meanwhile start subject email admin s ((upsert_user reply k mail flag t).1)

module _ (start : ℕ) (subject email : Text) (admin : Bool) (u : User)
    (asked : IsUser subject email admin u) where
  Meanwhile-Stands :
      {s t : Service}
      → Meanwhile start subject email admin s t
      → Stands subject (record { user = u; at = start }) s
      → Stands subject (record { user = u; at = start }) t
  Meanwhile-Stands nothing h = h
  Meanwhile-Stands {s = s} (by_same {t = t} reply now m fresh) h =
      let k = Meanwhile-Stands m h in
      rw (admit_again reply now subject email admin u start t asked fresh k) k
  Meanwhile-Stands (by_other {t = t} reply now other mail flag m ne fresh) h =
      admit-Stands reply now other subject mail flag (record { user = u; at = start }) t ne fresh
        (Meanwhile-Stands m h)
  Meanwhile-Stands (by_upsert {t = t} reply k mail flag m) h =
      ap (find_admitted subject) (upsert-admitted reply k mail flag t) ∙ Meanwhile-Stands m h

-- An admission that has written is remembered until the interval is over: whatever requests of the
-- same caller with the same claims, whatever admissions of others and whatever writes of users come in
-- between, the same caller is then admitted as the same user, with no write, whatever the database does.
pub admit_once :
    (reply again : Answer) (now later : ℕ) (subject email : Text) (admin : Bool) (s s1 s2 : Service)
    (u : User)
    → IsSound s
    → admit reply now subject email admin s ≡ (some u, s1)
    → s1.upserts ≢ s.upserts
    → Meanwhile now subject email admin s1 s2
    → ltb (later - now) admit_ttl ≡ true
    → admit again later subject email admin s2 ≡ (some u, s2)
unfolding admit
admit_once reply again now later subject email admin s s1 s2 u h e w between fresh =
    let asked : Admits reply subject email admin (some u, s1) =
      subst (Admits reply subject email admin) e (admit-Admits reply now subject email admin s h) in
    let up = upsert_user reply subject email admin s in
    let written = λ (k : admit_written now subject up ≡ (some u, s1)).
      let first : Stands subject (record { user = u; at = now }) s1 =
        subst (Stands subject (record { user = u; at = now }))
          (sym (write_remembers now subject (up.0) (up.1) s1 u k))
          (remember-Stands now subject u (up.1)) in
      admit_again again later subject email admin u now s2 asked.0 fresh
        (Meanwhile-Stands now subject email admin u asked.0 between first) in
    elim (Option-cases (find_admitted subject s.admitted)) [
      | inl n ↦ written (rw (admit, n) at e)
      | inr (a, found) ↦ elim (Bool-cases (still_stands now email admin a)) [
        | inl t ↦
            let stays : (some a.user, s) ≡ (some u, s1) = rw (admit, found, t) at e in
            absurd (w (ap (λ (r : Option User × Service). r.1.upserts) (sym stays)))
        | inr f ↦ written (rw (admit, found, f) at e)
      ]
    ]
