-- ===== src/Project/Banners/Few.antt =====
-- There are three messages at most, no two of them the same, and a message that is pushed is shown.
use my_paraview_web.Common.{
  ℕ, zero, suc, ◌-◌, ◌≤◌, Bool, true, false, not, List, [], ◌∷◌, ◌++◌, filter, drop, length,
  length-append, length-drop, length-filter_le, ◌≡◌, refl, sym, Bool-cases, inl, inr, arith, either,
}
use my_paraview_web.Common.Eq.{Text, codes, contains, Units_eq, same_units, same_units_refl}
use my_paraview_web.Project.Banners.{
  last_two, push_error, begins, clear_errors_by_prefix, dismiss_error, BannerEvent, pushed,
  cleared_prefix, dismissed, cleared, banner_step, banner_run,
}

abbrev IsDistinct : List Text → Type 0
IsDistinct [] = Unit
IsDistinct (e ∷ es) = (contains es e ≡ false) × IsDistinct es

contains-drop :
    (n : ℕ) (es : List Text) (m : Text) → contains es m ≡ false → contains (drop n es) m ≡ false
contains-drop zero es m h = h
contains-drop (suc n) [] m h = h
contains-drop (suc n) (e ∷ es) m h = elim (Bool-cases (same_units e m)) [
  | inl t ↦ let q = rw (t, contains) at h in cc
  | inr f ↦ contains-drop n es m (rw (f, contains) at h)
]

IsDistinct-drop : (n : ℕ) (es : List Text) → IsDistinct es → IsDistinct (drop n es)
IsDistinct-drop zero es h = h
IsDistinct-drop (suc n) [] h = h
IsDistinct-drop (suc n) (e ∷ es) (a, h) = IsDistinct-drop n es h

contains-filter :
    (p : Text → Bool) (es : List Text) (m : Text)
    → contains es m ≡ false
    → contains (filter p es) m ≡ false
contains-filter p [] m h = h
contains-filter p (e ∷ es) m h = elim (Bool-cases (same_units e m)) [
  | inl t ↦ let q = rw (t, contains) at h in cc
  | inr f ↦
      let ih = contains-filter p es m (rw (f, contains) at h) in
      either (λ xs. contains xs m ≡ false) (p e) (e ∷ filter p es) (filter p es)
        (λ t. rw (f, contains) ih) (λ t. ih)
]

IsDistinct-filter : (p : Text → Bool) (es : List Text) → IsDistinct es → IsDistinct (filter p es)
IsDistinct-filter p [] h = tt
IsDistinct-filter p (e ∷ es) (a, h) =
    let ih = IsDistinct-filter p es h in
    either IsDistinct (p e) (e ∷ filter p es) (filter p es) (λ t. (contains-filter p es e a, ih))
      (λ t. ih)

swapped : (a b : Text) → same_units a b ≡ false → same_units b a ≡ false
swapped a b h = elim (Bool-cases (same_units b a)) [
  | inl t ↦
      let same : b ≡ a = (Units_eq.beq_iff b a).0 t in
      absurd (let w : same_units a b ≡ true = (Units_eq.beq_iff a b).1 (sym same) in cc)
  | inr f ↦ f
]

contains-last :
    (es : List Text) (m k : Text)
    → contains es k ≡ false
    → same_units m k ≡ false
    → contains (es ++ m ∷ []) k ≡ false
contains-last [] m k h f = rw (f, contains) refl
contains-last (e ∷ es) m k h f = elim (Bool-cases (same_units e k)) [
  | inl t ↦ let q = rw (t, contains) at h in cc
  | inr g ↦ rw (g, contains) (contains-last es m k (rw (g, contains) at h) f)
]

contains-pushed : (es : List Text) (m : Text) → contains (es ++ m ∷ []) m ≡ true
contains-pushed [] m = rw (same_units_refl m, contains) refl
contains-pushed (e ∷ es) m = elim (Bool-cases (same_units e m)) [
  | inl t ↦ rw (t, contains) refl
  | inr f ↦ rw (f, contains) (contains-pushed es m)
]

IsDistinct-last :
    (es : List Text) (m : Text) → IsDistinct es → contains es m ≡ false → IsDistinct (es ++ m ∷ [])
IsDistinct-last [] m h f = (refl, tt)
IsDistinct-last (e ∷ es) m (a, h) f = elim (Bool-cases (same_units e m)) [
  | inl t ↦ let q = rw (t, contains) at f in cc
  | inr g ↦ (contains-last es m e a (swapped e m g), IsDistinct-last es m h (rw (g, contains) at f))
]

contains-dismiss :
    (i : ℕ) (es : List Text) (m : Text)
    → contains es m ≡ false
    → contains (dismiss_error i es) m ≡ false
unfolding dismiss_error
contains-dismiss zero [] m h = h
contains-dismiss (suc i) [] m h = h
contains-dismiss zero (e ∷ es) m h = elim (Bool-cases (same_units e m)) [
  | inl t ↦ let q = rw (t, contains) at h in cc
  | inr f ↦ rw (f, contains) at h
]
contains-dismiss (suc i) (e ∷ es) m h = elim (Bool-cases (same_units e m)) [
  | inl t ↦ let q = rw (t, contains) at h in cc
  | inr f ↦ rw (f, contains) (contains-dismiss i es m (rw (f, contains) at h))
]

dismiss-IsFew :
    (i : ℕ) (es : List Text)
    → IsDistinct es
    → IsDistinct (dismiss_error i es) × (length (dismiss_error i es) ≤ length es)
unfolding dismiss_error
dismiss-IsFew zero [] h = (tt, omega arith)
dismiss-IsFew (suc i) [] h = (tt, omega arith)
dismiss-IsFew zero (e ∷ es) (a, h) = (h, omega arith)
dismiss-IsFew (suc i) (e ∷ es) (a, h) =
    let (ih, less) = dismiss-IsFew i es h in ((contains-dismiss i es e a, ih), omega arith)

abbrev pub IsFew : List Text → Type 0
IsFew es = IsDistinct es × (length es ≤ 3)

push_error-IsFew :
    (m : Text) (es : List Text)
    → IsFew es
    → IsFew (push_error m es) × (contains (push_error m es) m ≡ true)
unfolding push_error
push_error-IsFew m es (d, l) = elim (Bool-cases (contains es m)) [
  | inl t ↦ rw t ((d, l), t)
  | inr f ↦
      let two = length-drop (length es - 2) es in
      let all = length-append (last_two es) (m ∷ []) in
      rw f (
        (
          IsDistinct-last (last_two es) m (IsDistinct-drop (length es - 2) es d)
              (contains-drop (length es - 2) es m f),
          omega arith,
        ),
        contains-pushed (last_two es) m,
      )
]

step-IsFew : (e : BannerEvent) (es : List Text) → IsFew es → IsFew (banner_step e es)
unfolding banner_step clear_errors_by_prefix
step-IsFew (pushed m) es h = (push_error-IsFew m es h).0
step-IsFew (cleared_prefix p) es (d, l) = (
  IsDistinct-filter _ es d,
  let k = length-filter_le (λ e. not (begins (p ++ codes ":") e)) es in omega arith,
)
step-IsFew (dismissed i) es (d, l) = let (k, m) = dismiss-IsFew i es d in (k, omega arith)
step-IsFew cleared es h = (tt, omega arith)

run-IsFew : (events : List BannerEvent) (es : List Text) → IsFew es → IsFew (banner_run events es)
unfolding banner_run
run-IsFew [] es h = h
run-IsFew (e ∷ events) es h = run-IsFew events (banner_step e es) (step-IsFew e es h)

-- From no message on, after any events, there are three messages at most and no two are the same;
-- and a message that is pushed then is shown.
pub banner_run-IsFew :
    (events : List BannerEvent) (message : Text)
    → let errors = banner_run events [] in
      IsFew errors × (contains (push_error message errors) message ≡ true)
banner_run-IsFew events message =
    let few = run-IsFew events [] (tt, omega arith) in
    (few, (push_error-IsFew message (banner_run events []) few).1)
