-- ===== src/Indexer/Select/Early.antt =====
-- backend/internal/indexer/select.go: SelectSize, which decides before the bytes are read, against
-- SelectBody, which decides with them.
use rongo.Prelude.{
  ℕ, zero, ◌≡◌, refl, ◌⊎◌, inl, inr, Bool, true, false, Option, none, some, [], Text, text_eq,
  text_in, map, lower, ext, base, length, ltb, leb, Bool-cases, arith, if◌then◌else◌,
}
use mathlib.Core.Bool.{true≢false}
use mathlib.Core.Path.{subst}
use rongo.Indexer.Select.{
  SelectOptions, Readers, Verdict, data_reason, is_include, select_path, select_by_path,
  select_size, select_body, is_binary,
}
use rongo.Indexer.Select.Names.{data_exts, schema_exts, sized_data_exts}

zero_least : (n : ℕ) → leb zero n ≡ true
zero_least n = ground arith

-- At size 0 only the formats that are data at any size have a reason, and it is the same at any size.
zero_reason :
    (p : Text) (size m k : ℕ)
    → text_eq (data_reason p zero m k) [] ≡ false
    → data_reason p size m k ≡ data_reason p zero m k
unfolding data_reason
zero_reason p size m k h = elim (Bool-cases (text_in (map lower (ext (base p))) data_exts)) [
  | inl d ↦ rw d refl
  | inr nd ↦ elim (Bool-cases (text_in (map lower (ext (base p))) schema_exts)) [
    | inl s ↦ absurd (true≢false (rw (nd, s, zero_least k) at h))
    | inr ns ↦ elim (Bool-cases (text_in (map lower (ext (base p))) sized_data_exts)) [
      | inl z ↦ absurd (true≢false (rw (nd, ns, z, zero_least m) at h))
      | inr nz ↦ rw (nd, ns, nz) refl
    ]
  ]
]

option_cases : (x : Option Verdict) → (x ≡ none) ⊎ ((v : Verdict) × (x ≡ some v))
option_cases none = inl refl
option_cases (some v) = inr (v, refl)

abbrev decides : Option Verdict → Bool
decides none = false
decides (some v) = true

module _ (a : Readers) (o : SelectOptions) (p : Text) where
  zero_skips :
      (size : ℕ)
      → is_include ((select_by_path a o p zero).0) ≡ false
      → is_include ((select_by_path a o p size).0) ≡ false
  unfolding select_by_path is_include
  zero_skips size h = elim (option_cases (select_path a o p)) [
    | inl n ↦
        elim (Bool-cases
          (text_eq (data_reason p zero (o.max_data_bytes) (o.max_schema_bytes)) [])) [
            | inl e ↦ absurd (true≢false (rw (select_by_path, n, e) at h))
            | inr f ↦
                rw
                  (
                    select_by_path,
                    n,
                    zero_reason p size (o.max_data_bytes) (o.max_schema_bytes) f,
                    f,
                  )
                  refl
          ]
    | inr (v, s) ↦ rw (select_by_path, s) (rw (select_by_path, s) at h)
  ]

  body_skips :
      (body : Text)
      → is_include ((select_by_path a o p (length (a.redact p body))).0) ≡ false
      → is_include ((select_body a o p body).0.0) ≡ false
  unfolding select_body is_include
  body_skips body h = elim (Bool-cases (ltb (o.max_bytes) (length body))) [
    | inl t ↦ rw t refl
    | inr small ↦ elim (Bool-cases (is_binary body)) [
      | inl t ↦ rw (small, t) refl
      | inr text ↦ elim (Bool-cases (a.secret_manifest p body)) [
        | inl t ↦ rw (small, text, t) refl
        | inr open_manifest ↦ elim (Bool-cases (text_eq (a.match_secret (a.redact p body)) [])) [
          | inl t ↦ rw (small, text, open_manifest, t, h) h
          | inr f ↦ rw (small, text, open_manifest, f) refl
        ]
      ]
    ]
  ]

  size_verdict :
      (size : ℕ) (v : Verdict)
      → ltb (o.max_bytes) size ≡ false
      → select_size a o p size ≡ some v
      → is_include ((select_by_path a o p (if a.is_config_path p then zero else size)).0) ≡ false
  unfolding select_size
  size_verdict size v small h =
      elim (Bool-cases
        (is_include ((select_by_path a o p (if a.is_config_path p then zero else size)).0))) [
          | inl t ↦
              absurd
                (true≢false (subst (λ x. decides x ≡ false) (rw (select_size, small, t) at h) refl))
          | inr f ↦ f
        ]

  -- A file that SelectSize refuses on its size, before it is read, is one that SelectBody would not
  -- include, whatever its bytes are, if a file that is not a configuration is left as it is by the
  -- redaction: no file is lost by deciding early.
  pub select_body-select_size :
      (body : Text) (v : Verdict)
      → (a.is_config_path p ≡ false → a.redact p body ≡ body)
      → select_size a o p (length body) ≡ some v
      → is_include ((select_body a o p body).0.0) ≡ false
  unfolding select_size select_body is_include
  select_body-select_size body v kept h = elim (Bool-cases (ltb (o.max_bytes) (length body))) [
    | inl t ↦ rw t refl
    | inr small ↦
        let sv = size_verdict (length body) v small h in
        elim (Bool-cases (a.is_config_path p)) [
          | inl c ↦ body_skips body (zero_skips (length (a.redact p body)) (rw c at sv))
          | inr c ↦ body_skips body (rw (kept c) (rw c at sv))
        ]
  ]
