-- ===== src/Retrieve/Edit/Exact.antt =====
-- withinOneEdit decides the relation that it is named for.
use rongo.Prelude.{
  ℕ, suc, ◌≡◌, refl, ◌↔◌, Bool, true, false, [], ◌∷◌, Text, length, ltb, ◌==◌, ==_iff, arith,
  Bool-cases, inl, inr, sym, ◌∙◌, ◌≤◌, ◌-◌, ltb→lt, ltb_false→le, ==_false→≢,
}
use mathlib.Core.Path.{subst}
use mathlib.Core.Bool.{true≢false}
use rongo.Retrieve.Edit.{walk, within_ordered, within_one_edit}

-- At most one insertion, deletion or substitution apart.
pub data OneEdit : Text → Text → Type 0 where
  none : {a : Text} → OneEdit a a
  deletion : {x : ℕ} {a : Text} → OneEdit (x ∷ a) a
  insertion : {x : ℕ} {a : Text} → OneEdit a (x ∷ a)
  substitution : {x y : ℕ} {a : Text} → OneEdit (x ∷ a) (y ∷ a)
  later : {x : ℕ} {a b : Text} → OneEdit a b → OneEdit (x ∷ a) (x ∷ b)

back : {a b : Text} → OneEdit a b → OneEdit b a
back none = none
back deletion = insertion
back insertion = deletion
back substitution = substitution
back (later e) = later (back e)

module _ (x y : ℕ) (a b : Text) where
  walk_hit : (s : Bool) (n : ℕ) → (x == y) ≡ true → walk s (x ∷ a) (y ∷ b) n ≡ walk s a b n
  unfolding walk
  walk_hit s n t = rw (walk, t) refl

  walk_over : (s : Bool) → (x == y) ≡ false → walk s (x ∷ a) (y ∷ b) 1 ≡ false
  unfolding walk
  walk_over s f = rw (walk, f) refl

  walk_replace : (x == y) ≡ false → walk true (x ∷ a) (y ∷ b) 0 ≡ walk true a b 1
  unfolding walk
  walk_replace f = rw (walk, f) refl

  walk_skip : (x == y) ≡ false → walk false (x ∷ a) (y ∷ b) 0 ≡ walk false a (y ∷ b) 1
  unfolding walk
  walk_skip f = rw (walk, f) refl

  cons_same : (x == y) ≡ true → a ≡ b → x ∷ a ≡ y ∷ b
  cons_same t e = let h : x ≡ y = (==_iff x y).0 t in cc

  cons_later : (x == y) ≡ true → OneEdit a b → OneEdit (x ∷ a) (y ∷ b)
  cons_later t e = subst (λ z. OneEdit (x ∷ a) (z ∷ b)) ((==_iff x y).0 t) (later e)

walk_self : (s : Bool) (a : Text) → walk s a a 1 ≡ true
unfolding walk
walk_self s [] = refl
walk_self s (x ∷ a) = ground (arith, walk_self s a)

-- With the one edit spent, only equal texts go through.
walk_spent : (s : Bool) (a b : Text) → length a ≡ length b → walk s a b 1 ≡ true → a ≡ b
walk_spent s [] [] l h = refl
walk_spent s [] (y ∷ b) l h = absurd (omega (arith, l))
walk_spent s (x ∷ a) [] l h = absurd (omega (arith, l))
walk_spent s (x ∷ a) (y ∷ b) l h = elim (Bool-cases (x == y)) [
  | inl t ↦
      cons_same x y a b t (walk_spent s a b (omega (arith, l)) (sym (walk_hit x y a b s 1 t) ∙ h))
  | inr f ↦ absurd (true≢false (sym h ∙ walk_over x y a b s f))
]

same_sound : (a b : Text) → length a ≡ length b → walk true a b 0 ≡ true → OneEdit a b
same_sound [] [] l h = none
same_sound [] (y ∷ b) l h = absurd (omega (arith, l))
same_sound (x ∷ a) [] l h = absurd (omega (arith, l))
same_sound (x ∷ a) (y ∷ b) l h =
    let l' : length a ≡ length b = omega (arith, l) in
    elim (Bool-cases (x == y)) [
      | inl t ↦ cons_later x y a b t (same_sound a b l' (sym (walk_hit x y a b true 0 t) ∙ h))
      | inr f ↦
          let e : a ≡ b = walk_spent true a b l' (sym (walk_replace x y a b f) ∙ h) in
          subst (λ z. OneEdit (x ∷ a) (y ∷ z)) e substitution
    ]

longer_sound : (a b : Text) → length a ≡ suc (length b) → walk false a b 0 ≡ true → OneEdit a b
longer_sound [] b l h = absurd (omega (arith, l))
longer_sound (x ∷ []) [] l h = deletion
longer_sound (x ∷ z ∷ a) [] l h = absurd (omega (arith, l))
longer_sound (x ∷ a) (y ∷ b) l h = elim (Bool-cases (x == y)) [
  | inl t ↦
      cons_later x y a b t
        (longer_sound a b (omega (arith, l)) (sym (walk_hit x y a b false 0 t) ∙ h))
  | inr f ↦
      let e : a ≡ y ∷ b =
        walk_spent false a (y ∷ b) (omega (arith, l)) (sym (walk_skip x y a b f) ∙ h) in
      subst (λ z. OneEdit (x ∷ a) z) e deletion
]

walk_clean : (s : Bool) (a : Text) → walk s a a 0 ≡ true
unfolding walk
walk_clean s [] = refl
walk_clean s (x ∷ a) = ground (arith, walk_clean s a)

-- A text passes over itself with its first letter repeated anywhere before it.
walk_deletion : (x : ℕ) (a : Text) → walk false (x ∷ a) a 0 ≡ true
unfolding walk
walk_deletion x [] = refl
walk_deletion x (y ∷ a) = elim (Bool-cases (x == y)) [
  | inl t ↦ walk_hit x y (y ∷ a) a false 0 t ∙ walk_deletion y a
  | inr f ↦ walk_skip x y (y ∷ a) a f ∙ walk_self false (y ∷ a)
]

same_complete : {a b : Text} → OneEdit a b → length a ≡ length b → walk true a b 0 ≡ true
same_complete {a} none l = walk_clean true a
same_complete deletion l = absurd (omega (arith, l))
same_complete insertion l = absurd (omega (arith, l))
same_complete (substitution {x} {y} {a}) l = elim (Bool-cases (x == y)) [
  | inl t ↦ walk_hit x y a a true 0 t ∙ walk_clean true a
  | inr f ↦ walk_replace x y a a f ∙ walk_self true a
]
same_complete (later {x} {a} {b} e) l =
    walk_hit x x a b true 0 ((==_iff x x).1 refl) ∙ same_complete e (omega (arith, l))

longer_complete : {a b : Text} → OneEdit a b → length a ≡ suc (length b) → walk false a b 0 ≡ true
longer_complete none l = absurd (omega (arith, l))
longer_complete (deletion {x} {a}) l = walk_deletion x a
longer_complete insertion l = absurd (omega (arith, l))
longer_complete substitution l = absurd (omega (arith, l))
longer_complete (later {x} {a} {b} e) l =
    walk_hit x x a b false 0 ((==_iff x x).1 refl) ∙ longer_complete e (omega (arith, l))

OneEdit-lengths :
    {a b : Text} → OneEdit a b → (length a ≤ suc (length b)) × (length b ≤ suc (length a))
OneEdit-lengths none = (omega arith, omega arith)
OneEdit-lengths deletion = (omega arith, omega arith)
OneEdit-lengths insertion = (omega arith, omega arith)
OneEdit-lengths substitution = (omega arith, omega arith)
OneEdit-lengths (later e) = let h = OneEdit-lengths e in (omega (arith, h.0), omega (arith, h.1))

within_ordered-OneEdit :
    (a b : Text) → length b ≤ length a → (within_ordered a b ≡ true) ↔ OneEdit a b
unfolding within_ordered
within_ordered-OneEdit a b le = elim (Bool-cases (ltb 1 (length a - length b))) [
  | inl t ↦
      let far = ltb→lt 1 (length a - length b) t in
      (
        λ h. absurd (true≢false (sym h ∙ rw (within_ordered, t) refl)),
        λ e. let close = OneEdit-lengths e in absurd (omega (arith, far, close.0)),
      )
  | inr f ↦
      let close = ltb_false→le 1 (length a - length b) f in
      elim (Bool-cases (length a == length b)) [
        | inl s ↦
            let l : length a ≡ length b = (==_iff (length a) (length b)).0 s in
            let e : within_ordered a b ≡ walk true a b 0 = rw (within_ordered, f, s) refl in
            (λ h. same_sound a b l (sym e ∙ h), λ d. e ∙ same_complete d l)
        | inr s ↦
            let apart = ==_false→≢ (length a) (length b) s in
            let l : length a ≡ suc (length b) = omega (arith, le, close, apart) in
            let e : within_ordered a b ≡ walk false a b 0 = rw (within_ordered, f, s) refl in
            (λ h. longer_sound a b l (sym e ∙ h), λ d. e ∙ longer_complete d l)
      ]
]

-- withinOneEdit holds of two strings exactly when one insertion, deletion or substitution of a
-- rune, or none, makes the one into the other.
pub within_one_edit-OneEdit : (a b : Text) → (within_one_edit a b ≡ true) ↔ OneEdit a b
unfolding within_one_edit
within_one_edit-OneEdit a b = elim (Bool-cases (ltb (length a) (length b))) [
  | inl t ↦
      let h = within_ordered-OneEdit b a (omega (arith, ltb→lt (length a) (length b) t)) in
      let e : within_one_edit a b ≡ within_ordered b a = rw (within_one_edit, t) refl in
      (λ w. back (h.0 (sym e ∙ w)), λ d. e ∙ h.1 (back d))
  | inr f ↦
      let h = within_ordered-OneEdit a b (omega (arith, ltb_false→le (length a) (length b) f)) in
      let e : within_one_edit a b ≡ within_ordered a b = rw (within_one_edit, f) refl in
      (λ w. h.0 (sym e ∙ w), λ d. e ∙ h.1 d)
]
