-- ===== src/Indexer/Select/Safe.antt =====
-- backend/internal/indexer/select.go: what SelectBody lets through to the chunker and to the
-- embedding service.
use rongo.Prelude.{
  ℕ, ◌≤◌, ◌≡◌, refl, sym, ◌∙◌, ◌⊎◌, inl, inr, true, false, Option, none, some, [], Text, text_eq,
  text_eq_iff, length, ltb_false→le, take, ltb, Bool-cases,
}
use mathlib.Core.Bool.{true≢false}
use rongo.Indexer.Select.{
  SelectOptions, Readers, excluded, vendored_segment, generated_by_name, is_include, select_path,
  select_by_path, select_body, is_binary,
}

text_cases : (x : Option Text) → (x ≡ none) ⊎ ((v : Text) × (x ≡ some v))
text_cases none = inl refl
text_cases (some v) = inr (v, refl)

module _ (a : Readers) (o : SelectOptions) (p : Text) where
  -- No rule on the path speaks against the file.
  abbrev pub IsOpen : Type 0
  IsOpen = (excluded a o p ≡ none) × (vendored_segment p ≡ []) × (generated_by_name p ≡ [])

  select_path-IsOpen : (size : ℕ) → is_include ((select_by_path a o p size).0) ≡ true → IsOpen
  unfolding select_by_path select_path is_include
  select_path-IsOpen size h = elim (text_cases (excluded a o p)) [
    | inr (pat, e) ↦ absurd (true≢false (sym (rw (select_by_path, select_path, e) at h)))
    | inl e ↦ elim (Bool-cases (text_eq (vendored_segment p) [])) [
      | inr f ↦ absurd (true≢false (sym (rw (select_by_path, select_path, e, f) at h)))
      | inl t ↦ elim (Bool-cases (text_eq (generated_by_name p) [])) [
        | inr f ↦ absurd (true≢false (sym (rw (select_by_path, select_path, e, t, f) at h)))
        | inl g ↦ (
          e,
          (text_eq_iff (vendored_segment p) []).0 t,
          (text_eq_iff (generated_by_name p) []).0 g,
        )
      ]
    ]
  ]

  -- What SelectBody includes is within the ceiling and no binary, its path is excluded by no pattern
  -- and is neither vendored nor generated by its name, it is no Secret manifest, and the body that is
  -- handed on is the redacted one, in which no credential is found.
  pub select_body-IsOpen :
      (body : Text)
      → is_include ((select_body a o p body).0.0) ≡ true
      → ((select_body a o p body).1 ≡ a.redact p body)
        × (a.match_secret ((select_body a o p body).1) ≡ [])
        × (a.secret_manifest p body ≡ false)
        × (length body ≤ o.max_bytes)
        × (is_binary body ≡ false)
        × IsOpen
  unfolding select_body is_include
  select_body-IsOpen body h = elim (Bool-cases (ltb (o.max_bytes) (length body))) [
    | inl t ↦ absurd (true≢false (sym (rw (select_body, t) at h)))
    | inr small ↦ elim (Bool-cases (is_binary body)) [
      | inl t ↦ absurd (true≢false (sym (rw (select_body, small, t) at h)))
      | inr text ↦ elim (Bool-cases (a.secret_manifest p body)) [
        | inl t ↦ absurd (true≢false (sym (rw (select_body, small, text, t) at h)))
        | inr m ↦ elim (Bool-cases (text_eq (a.match_secret (a.redact p body)) [])) [
          | inr f ↦ absurd (true≢false (sym (rw (select_body, small, text, m, f) at h)))
          | inl clear ↦
              let clean = (text_eq_iff (a.match_secret (a.redact p body)) []).0 clear in
              elim (Bool-cases (is_include ((select_by_path a o p (length (a.redact p body))).0))) [
                | inr f ↦
                    absurd (true≢false (sym (rw (select_body, small, text, m, clear, f) at h) ∙ f))
                | inl ok ↦ elim (Bool-cases (a.generated_marker (take 2048 (a.redact p body)))) [
                  | inl t ↦
                      absurd
                        (true≢false (sym (rw (select_body, small, text, m, clear, ok, t) at h)))
                  | inr fresh ↦ (
                    rw (select_body, small, text, m, clear, ok, fresh) refl,
                    rw (select_body, small, text, m, clear, ok, fresh) clean,
                    m,
                    ltb_false→le (o.max_bytes) (length body) small,
                    text,
                    select_path-IsOpen (length (a.redact p body)) ok,
                  )
                ]
              ]
        ]
      ]
    ]
  ]
