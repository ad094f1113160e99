-- ===== src/Connection/Mode/Laws.antt =====
-- The bases that are normalized, and the configurations that a build can have.
use my_paraview_web.Common.{
  ℕ, Bool, true, false, not, ◌&&◌, ◌||◌, Option, none, some, [], ◌∷◌, ◌≡◌, refl, ◌==◌, is_empty,
  Bool-cases, inl, inr, ◌⊎◌, some_injective, subst,
}
use my_paraview_web.Common.Eq.{Text, codes, ◌===◌, Units_eq}
use my_paraview_web.Csv.Points.{trim}
use my_paraview_web.Connection.Mode.{
  static, server, Url, ConnectionConfig, ModeEnvironment, strip_slashes, or_slash, base_of_url,
  base_of_trimmed, normalize_api_base, resolve_connection_config, lower, text_or_empty,
}

abbrev pub ends_in_slash : Text → Bool
ends_in_slash [] = false
ends_in_slash (c ∷ []) = c == b'/'
ends_in_slash (c ∷ (d ∷ ds)) = ends_in_slash (d ∷ ds)

-- The last unit of a text that goes on is that of its rest.
ends_in_slash-cons :
    (c : ℕ) (t : Text) → is_empty t ≡ false → ends_in_slash (c ∷ t) ≡ ends_in_slash t
ends_in_slash-cons c [] h = cc
ends_in_slash-cons c (d ∷ ds) h = refl

ends_in_slash-one : (c : ℕ) (t : Text) → is_empty t ≡ true → ends_in_slash (c ∷ t) ≡ (c == b'/')
ends_in_slash-one c [] h = refl
ends_in_slash-one c (d ∷ ds) h = cc

pub ends_in_slash-strip_slashes : (t : Text) → ends_in_slash (strip_slashes t) ≡ false
unfolding strip_slashes
ends_in_slash-strip_slashes [] = refl
ends_in_slash-strip_slashes (c ∷ cs) = elim (Bool-cases (is_empty (strip_slashes cs))) [
  | inl e ↦ elim (Bool-cases (c == b'/')) [
    | inl s ↦ rw (e, s) refl
    | inr n ↦ rw (e, n, ends_in_slash-one c (strip_slashes cs) e, n) refl
  ]
  | inr f ↦ elim (Bool-cases (c == b'/')) [
    | inl s ↦ rw (f, s, ends_in_slash-cons c (strip_slashes cs) f) (ends_in_slash-strip_slashes cs)
    | inr n ↦ rw (f, n, ends_in_slash-cons c (strip_slashes cs) f) (ends_in_slash-strip_slashes cs)
  ]
]

-- A base has no slash at its end, unless it is the slash alone.
abbrev pub IsBase : Text → Type 0
IsBase base = (base ≡ codes "/") ⊎ (ends_in_slash base ≡ false)

or_slash-IsBase : (t : Text) → ends_in_slash t ≡ false → IsBase (or_slash t)
or_slash-IsBase [] h = inl refl
or_slash-IsBase (c ∷ cs) h = inr h

base_of_url-IsBase : (u : Option Url) {base : Text} → base_of_url u ≡ some base → IsBase base
base_of_url-IsBase none h = cc
base_of_url-IsBase (some url) h =
    elim (Bool-cases
      (not (url.protocol === codes "http:") && not (url.protocol === codes "https:"))) [
        | inl bad ↦ let q = rw bad at h in cc
        | inr good ↦ elim (Bool-cases (not (is_empty url.search) || not (is_empty url.hash))) [
          | inl bad ↦ let q = rw (good, bad) at h in cc
          | inr plain ↦
              let q = rw (good, plain) at h in
              subst IsBase (some_injective q) (inr (ends_in_slash-strip_slashes url.href))
        ]
      ]

-- A configuration is that of a server, with a base and connecting by itself, or static, with neither.
abbrev pub IsConsistent : ConnectionConfig → Type 0
IsConsistent c =
    ((c.mode ≡ server) × (c.auto_connect ≡ true) × (base : Text) × (c.api_base ≡ some base))
    ⊎ ((c.mode ≡ static) × (c.auto_connect ≡ false) × (c.api_base ≡ none))

module _ (parse_url : Text → Option Url) where
  base_of_trimmed-IsBase :
      (t : Text) {base : Text} → base_of_trimmed parse_url t ≡ some base → IsBase base
  base_of_trimmed-IsBase [] h = cc
  base_of_trimmed-IsBase (c ∷ cs) h = elim (Bool-cases (c == b'/')) [
    | inl s ↦
        let q = rw s at h in
        subst IsBase (some_injective q)
          (or_slash-IsBase (strip_slashes (c ∷ cs)) (ends_in_slash-strip_slashes (c ∷ cs)))
    | inr n ↦ let q = rw n at h in base_of_url-IsBase (parse_url (c ∷ cs)) q
  ]

  -- Whatever `new URL` makes of a text, a base that is accepted has no slash at its end, unless it is
  -- the slash alone.
  pub normalize_api_base-IsBase :
      (value : Text) {base : Text} → normalize_api_base parse_url value ≡ some base → IsBase base
  unfolding normalize_api_base
  normalize_api_base-IsBase value h = base_of_trimmed-IsBase (trim value) h

  -- Every build connects by itself exactly where it has a base, in server mode; where it names
  -- neither a mode nor a base and is no development build, it does not.
  pub resolve_connection_config-IsConsistent :
      (env : ModeEnvironment)
      → IsConsistent (resolve_connection_config parse_url env)
        × (env.app_mode ≡ none
            → env.api_base ≡ none
            → env.dev ≡ false
            → (resolve_connection_config parse_url env).auto_connect ≡ false)
  unfolding resolve_connection_config trim
  resolve_connection_config-IsConsistent env =
      let mode = lower (trim (text_or_empty env.app_mode)) in
      let base = trim (text_or_empty env.api_base) in
      (
        elim (Bool-cases (mode === codes "static")) [
          | inl a ↦ rw a (inr (refl, refl, refl))
          | inr a ↦ elim (Bool-cases (is_empty base)) [
            | inr b ↦ rw (a, b) (inl (refl, refl, _, refl))
            | inl b ↦ elim (Bool-cases (mode === codes "server")) [
              | inl c ↦ rw (a, b, c) (inl (refl, refl, _, refl))
              | inr c ↦ elim (Bool-cases env.dev) [
                | inl d ↦ rw (a, b, c, d) (inl (refl, refl, _, refl))
                | inr d ↦ rw (a, b, c, d) (inr (refl, refl, refl))
              ]
            ]
          ]
        ],
        λ m b d. rw (m, b, d) refl,
      )
