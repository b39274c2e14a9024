-- ===== src/Indexer/Poller/Steps.antt =====
-- A poll beside the admin's requests: the statements of the poll run in their order, and between any
-- two of them a request for a full re-index may arrive. The rules below prove what a part of a poll
-- ensures whatever arrives.
use rongo.Prelude.{
  ℕ, suc, ◌+◌, ◌≡◌, refl, Bool, true, false, List, [], ◌∷◌, ◌++◌, arith, if◌then◌else◌,
}
use mathlib.Core.Path.{subst}
use native.Mathlib.Nat.{add-zero}
use rongo.Indexer.State.{RepoState, Write, request_reindex, apply}
use rongo.Indexer.Poller.{Result, ok, err, Poll, continue, ◌>>=◌, pure, ask, tell}

-- From one row to another by these statements and that many requests.
pub data Steps : List Write → ℕ → RepoState → RepoState → Type 0 where
  done : {r : RepoState} → Steps [] 0 r r
  own :
      {w : Write} {ws : List Write} {n : ℕ} {r r' : RepoState}
      → Steps ws n (apply w r) r'
      → Steps (w ∷ ws) n r r'
  request :
      {ws : List Write} {n : ℕ} {r r' : RepoState}
      → Steps ws n (apply request_reindex r) r'
      → Steps ws (suc n) r r'

-- What holds of the number of requests so far and of the row.
abbrev pub Assertion : Type 1
Assertion = ℕ → RepoState → Type 0

abbrev pub IsStable : Assertion → Type 0
IsStable P = (n : ℕ) (r : RepoState) → P n r → P (suc n) (apply request_reindex r)

abbrev pub Post {ℓ} : {A : Type ℓ} → (A → Assertion) → Assertion → Result A → Assertion
Post Q E (ok a) = Q a
Post Q E (err e) = E

-- From `P` the part ends in `Q` of its value, or fails in `E`.
pub record Ensures {ℓ} {A : Type ℓ} (P : Assertion) (m : Poll A) (Q : A → Assertion) (E : Assertion)
    : Type ℓ where
  pub after : (n k : ℕ) (r r' : RepoState) → P n r → Steps m.1 k r r' → Post Q E m.0 (n + k) r'

-- The two halves of a run.
record Halves (ws vs : List Write) (k : ℕ) (r r' : RepoState) : Type 0 where
  first : ℕ
  second : ℕ
  middle : RepoState
  front : Steps ws first r middle
  back : Steps vs second middle r'
  sum : first + second ≡ k

halve :
    (ws vs us : List Write) {k : ℕ} {r r' : RepoState}
    → us ≡ ws ++ vs
    → Steps us k r r'
    → Halves ws vs k r r'
halve [] vs us {k} {r} {r'} e st = record {
  first = 0;
  second = k;
  middle = r;
  front = done;
  back = subst (λ t. Steps t k r r') e st;
  sum = omega arith;
}
halve (w ∷ ws) vs us e done = cc
halve (w ∷ ws) vs us {k} {r} e (own {w = u} st) =
    let same : u ≡ w = cc in
    let h = halve ws vs _ (cc) st in
    record {
      first = h.first;
      second = h.second;
      middle = h.middle;
      front = own (subst (λ t. Steps ws h.first (apply t r) h.middle) same h.front);
      back = h.back;
      sum = h.sum;
    }
halve (w ∷ ws) vs us e (request st) =
    let h = halve (w ∷ ws) vs us e st in
    record {
      first = suc h.first;
      second = h.second;
      middle = h.middle;
      front = request h.front;
      back = h.back;
      sum = omega (arith, h.sum);
    }

-- Requests alone keep what is stable.
idle :
    (P : Assertion) (n : ℕ) {k : ℕ} {r r' : RepoState}
    → IsStable P
    → P n r
    → Steps [] k r r'
    → P (n + k) r'
idle P n s p done = rw add-zero p
idle P n {r = r} {r' = r'} s p (request {n = k} st) =
    let e : suc n + k ≡ n + suc k = omega arith in
    subst (λ t. P t r') e (idle P (suc n) s (s n r p) st)

written :
    (P Q : Assertion) (w : Write) (ws : List Write) (n : ℕ) {k : ℕ} {r r' : RepoState}
    → ws ≡ w ∷ []
    → IsStable P
    → IsStable Q
    → ((m : ℕ) (q : RepoState) → P m q → Q m (apply w q))
    → P n r
    → Steps ws k r r'
    → Q (n + k) r'
written P Q w ws n e sP sQ f p done = cc
written P Q w ws n {k} {r} {r'} e sP sQ f p (own {w = u} {ws = us} st) =
    let same : u ≡ w = cc in
    let nil : us ≡ [] = cc in
    idle Q n sQ (f n r p)
      (subst (λ t. Steps [] k (apply t r) r') same (subst (λ t. Steps t k (apply u r) r') nil st))
written P Q w ws n {r = r} {r' = r'} e sP sQ f p (request {n = k} st) =
    let eq : suc n + k ≡ n + suc k = omega arith in
    subst (λ t. Q t r') eq (written P Q w ws (suc n) e sP sQ f (sP n r p) st)

module _ {ℓ} {A : Type ℓ} {P : Assertion} {Q : A → Assertion} {E : Assertion} where
  pub Ensures-pure :
      (a : A)
      → IsStable (Q a)
      → ((n : ℕ) (r : RepoState) → P n r → Q a n r)
      → Ensures P (pure a) Q E
  Ensures-pure a s f = record { after = λ n k r r' p st. idle (Q a) n s (f n r p) st }

  pub Ensures-ask :
      (x : Result A)
      → IsStable P
      → ((n : ℕ) (r : RepoState) → P n r → E n r)
      → ((a : A) → x ≡ ok a → (n : ℕ) (r : RepoState) → P n r → Q a n r)
      → Ensures P (ask x) Q E
  Ensures-ask (ok a) s fails gives = record {
    after = λ n k r r' p st. gives a refl (n + k) r' (idle P n s p st);
  }
  Ensures-ask (err e) s fails gives = record {
    after = λ n k r r' p st. fails (n + k) r' (idle P n s p st);
  }

  pub Ensures-if :
      (b : Bool) (x y : Poll A)
      → (b ≡ true → Ensures P x Q E)
      → (b ≡ false → Ensures P y Q E)
      → Ensures P (if b then x else y) Q E
  Ensures-if true x y f g = f refl
  Ensures-if false x y f g = g refl

-- The run of a part and of one more statement.
pub ends-written {ℓ} :
    {A : Type ℓ} {P E : Assertion} {Q : A → Assertion} (m : Poll A) (F : Assertion) (x : Result A)
    (w : Write) (k : ℕ) (r r' : RepoState)
    → m.0 ≡ x
    → Ensures P m Q E
    → IsStable (Post Q E x)
    → IsStable F
    → ((i : ℕ) (q : RepoState) → Post Q E x i q → F i (apply w q))
    → P 0 r
    → Steps (m.1 ++ w ∷ []) k r r'
    → F k r'
ends-written {P = P} {E = E} {Q = Q} m F x w k r r' ends h sE sF f p st =
    let v = halve m.1 (w ∷ []) _ refl st in
    let mid : Post Q E x (0 + v.first) v.middle =
      subst (λ t. Post Q E t (0 + v.first) v.middle) ends
        (h.after 0 v.first r v.middle p v.front) in
    let eq : 0 + v.first + v.second ≡ k = omega (arith, v.sum) in
    subst (λ t. F t r') eq (written (Post Q E x) F w (w ∷ []) (0 + v.first) refl sE sF f mid v.back)

pub ends-ok {ℓ} :
    {A : Type ℓ} {P E : Assertion} {Q : A → Assertion} (m : Poll A) (a : A) (k : ℕ)
    (r r' : RepoState)
    → m.0 ≡ ok a
    → Ensures P m Q E
    → P 0 r
    → Steps m.1 k r r'
    → Q a k r'
ends-ok {E = E} {Q = Q} m a k r r' good h p st =
    let eq : 0 + k ≡ k = omega arith in
    subst (λ t. Q a t r') eq (subst (λ t. Post Q E t (0 + k) r') good (h.after 0 k r r' p st))

pub Ensures-weaken {ℓ} :
    {A : Type ℓ} {P P' E : Assertion} {Q : A → Assertion} {m : Poll A}
    → ((n : ℕ) (r : RepoState) → P n r → P' n r)
    → Ensures P' m Q E
    → Ensures P m Q E
Ensures-weaken f h = record { after = λ n k r r' p st. h.after n k r r' (f n r p) st }

pub Ensures-tell :
    {P : Assertion} {Q : Unit {0} → Assertion} {E : Assertion} (w : Write)
    → IsStable P
    → IsStable (Q tt)
    → ((n : ℕ) (r : RepoState) → P n r → Q tt n (apply w r))
    → Ensures P (tell w) Q E
Ensures-tell {P} {Q} w sP sQ f = record {
  after = λ n k r r' p st. written P (Q tt) w _ n refl sP sQ f p st;
}

module _ {ℓ} {A B : Type ℓ} {P : Assertion} {R : A → Assertion} {Q : B → Assertion}
    {E : Assertion} where
  bound :
      (x : Result A) (ws : List Write) (f : A → Poll B)
      → ((a : A) → Ensures (R a) (f a) Q E)
      → Ensures P (x, ws) R E
      → Ensures P (continue x ws f) Q E
  bound (err e) ws f g h = record { after = h.after }
  bound (ok a) ws f g h = record {
    after = λ n k r r' p st.
        let v = halve ws (f a).1 _ refl st in
        let mid = h.after n v.first r v.middle p v.front in
        let e : n + v.first + v.second ≡ n + k = omega (arith, v.sum) in
        subst (λ t. Post Q E (f a).0 t r') e
          ((g a).after (n + v.first) v.second v.middle r' mid v.back);
  }

  pub Ensures-bind :
      (m : Poll A) (f : A → Poll B)
      → Ensures P m R E
      → ((a : A) → Ensures (R a) (f a) Q E)
      → Ensures P (m >>= f) Q E
  Ensures-bind m f h g = bound m.0 m.1 f g h
