-- ===== src/Display/History/Undo.antt =====
-- Edits, playback and undo in frontend/src/hooks/useDisplayState.ts.
use my_paraview_web.Common.{
  ℕ, Bool, zero, suc, ◌+◌, ◌≤◌, ◌<◌, ◌≡◌, refl, sym, subst, ◌∙◌, ap, true, false, none, some, List,
  [], ◌∷◌, ltb, length, take, get_elem?, arith, Bool-cases, inl, inr, some_injective, ◌==◌, ==_refl,
}
use mathlib.Core.List.{foldl}
use my_paraview_web.Common.Eq.{Eq}
use my_paraview_web.Display.Snapshot.{Snapshot, snapshots_equal}
use my_paraview_web.Display.Snapshot.Laws.{snapshots_equal_refl, timestep_of_snapshots_equal}
use my_paraview_web.Display.History.{
  Display, display_history_limit, append_bounded, apply_without_recording, undo_to, undo,
  record_entry, record_effect, render, show, set_state, set_playback_timestep,
}

take_all {ℓ} : {A : Type ℓ} (n : ℕ) (xs : List A) → length xs ≤ n → take n xs ≡ xs
take_all zero [] h = refl
take_all zero (x ∷ xs) h = absurd (omega arith)
take_all (suc n) [] h = refl
take_all (suc n) (x ∷ xs) h = ap (x ∷◌) (take_all n xs (omega arith))

-- The guard of `appendBounded` changes nothing.
pub append_bounded-take :
    {N : Type 0} (stack : List (Snapshot N)) (s : Snapshot N)
    → append_bounded stack s ≡ take display_history_limit (s ∷ stack)
unfolding append_bounded
append_bounded-take stack s = elim (Bool-cases (ltb display_history_limit (length (s ∷ stack)))) [
  | inl long ↦ rw long
  | inr short ↦ rw short (sym (take_all 50 (s ∷ stack) (ground arith)))
]

pub get_elem?-take {ℓ} :
    {A : Type ℓ} (n i : ℕ) (xs : List A) → i < n → get_elem? (take n xs) i ≡ get_elem? xs i
get_elem?-take zero i xs h = absurd (omega arith)
get_elem?-take (suc n) i [] h = refl
get_elem?-take (suc n) zero (x ∷ xs) h = refl
get_elem?-take (suc n) (suc i) (x ∷ xs) h = get_elem?-take n i xs (omega arith)

-- No setter waits for a render, and what is rendered was recorded.
pub record IsSettled {N : Type 0} (d : Display N) : Type 0 where
  pub rendered : d.shown ≡ d.snapshot
  pub recorded : d.last_recorded ≡ d.snapshot
  pub manual : d.automatic_timestep ≡ none

module _ {N : Type 0} where
  -- The rendered snapshot, then those that undo goes back to.
  abbrev pub timeline : Display N → List (Snapshot N)
  timeline d = d.snapshot ∷ d.past

  abbrev pub undo_times : ℕ → Display N → Display N
  undo_times zero d = d
  undo_times (suc n) d = undo_times n (undo d)

  snapshot-undo_times :
      (n : ℕ) (d : Display N) (past : List (Snapshot N)) {s : Snapshot N}
      → d.past ≡ past
      → get_elem? (d.snapshot ∷ past) n ≡ some s
      → (undo_times n d).snapshot ≡ s
  unfolding undo undo_to apply_without_recording
  snapshot-undo_times zero d past e h = some_injective h
  snapshot-undo_times (suc n) d [] e h = cc
  snapshot-undo_times (suc n) d (t ∷ past) e h =
      rw e (snapshot-undo_times n (undo_to d (t ∷ past)) past refl h)

  undo_to-IsSettled :
      (d : Display N) (past : List (Snapshot N)) → IsSettled d → IsSettled (undo_to d past)
  unfolding undo_to apply_without_recording
  undo_to-IsSettled d [] h = h
  undo_to-IsSettled d (t ∷ past) h = record { rendered = refl; recorded = refl; manual = refl }

  undo_times-IsSettled : (n : ℕ) (d : Display N) → IsSettled d → IsSettled (undo_times n d)
  unfolding undo
  undo_times-IsSettled zero d h = h
  undo_times-IsSettled (suc n) d h = undo_times-IsSettled n (undo d) (undo_to-IsSettled d d.past h)

  module _ ⦃e : Eq N⦄ where
    -- The user changes what is shown, and React renders it.
    abbrev pub edit_to : Display N → Snapshot N → Display N
    edit_to d s = render false (show d s)

    -- the state after a change from a settled state
    abbrev pub edited : Display N → Snapshot N → Display N
    edited d s = record d {
      shown = s;
      snapshot = s;
      last_recorded = s;
      past = take display_history_limit (timeline d);
      future = [];
      automatic_timestep = none;
    }

    pub edit_to_lem :
        (d : Display N) (s : Snapshot N)
        → IsSettled d
        → snapshots_equal d.snapshot s ≡ false
        → edit_to d s ≡ edited d s
    unfolding render record_effect record_entry
    edit_to_lem d s h changed =
        rw (changed, h.manual, h.recorded, changed, append_bounded-take d.past d.snapshot)

    -- Each snapshot differs from the one before it.
    abbrev pub AllChange : Snapshot N → List (Snapshot N) → Type 0
    AllChange s [] = Unit
    AllChange s (t ∷ ts) = (snapshots_equal s t ≡ false) × AllChange t ts

    edited-IsSettled : (d : Display N) (s : Snapshot N) → IsSettled (edited d s)
    edited-IsSettled d s = record { rendered = refl; recorded = refl; manual = refl }

    timeline-edits :
        (d : Display N) (ss : List (Snapshot N)) (i n : ℕ) {t : Snapshot N}
        → IsSettled d
        → AllChange d.snapshot ss
        → get_elem? (timeline d) i ≡ some t
        → i + length ss ≡ n
        → n ≤ display_history_limit
        → get_elem? (timeline (foldl edit_to d ss)) n ≡ some t
    timeline-edits d [] i n h k e sum room = let same : i ≡ n = omega arith in rw same at e
    timeline-edits d (s ∷ ss) i n {t} h (changed, k) e sum room =
        subst (λ (d' : Display N). get_elem? (timeline (foldl edit_to d' ss)) n ≡ some t)
          (sym (edit_to_lem d s h changed))
          (timeline-edits (edited d s) ss (suc i) n (edited-IsSettled d s) k
            (get_elem?-take 50 i (timeline d) (omega arith) ∙ e) (omega arith) room)

    edits-IsSettled :
        (d : Display N) (ss : List (Snapshot N))
        → IsSettled d
        → AllChange d.snapshot ss
        → IsSettled (foldl edit_to d ss)
    edits-IsSettled d [] h k = h
    edits-IsSettled d (s ∷ ss) h (changed, k) =
        subst (λ (d' : Display N). IsSettled (foldl edit_to d' ss))
          (sym (edit_to_lem d s h changed))
          (edits-IsSettled (edited d s) ss (edited-IsSettled d s) k)

    -- From a settled state, after up to 50 edits, each rendered and each a change, as many undos
    -- bring back the snapshot from before the first edit, in the ref and in the states that are
    -- shown, and leave a settled state.
    pub undo_times-edits :
        (d : Display N) (ss : List (Snapshot N))
        → IsSettled d
        → AllChange d.snapshot ss
        → length ss ≤ display_history_limit
        → let d' = undo_times (length ss) (foldl edit_to d ss) in
          (d'.snapshot ≡ d.snapshot) × (d'.shown ≡ d.shown) × IsSettled d'
    undo_times-edits d ss h k room =
        let settled =
          undo_times-IsSettled (length ss) (foldl edit_to d ss) (edits-IsSettled d ss h k) in
        let back =
          snapshot-undo_times (length ss) (foldl edit_to d ss) _ refl
            (timeline-edits d ss 0 (length ss) h k refl (omega arith) room) in
        (back, settled.rendered ∙ (back ∙ sym h.rendered), settled)

    differs_of_timestep :
        (s t : Snapshot N)
        → (s.timestep_index == t.timestep_index) ≡ false
        → snapshots_equal s t ≡ false
    differs_of_timestep s t moved = elim (Bool-cases (snapshots_equal s t)) [
      | inl same ↦ let e = timestep_of_snapshots_equal s t same in cc
      | inr differs ↦ differs
    ]

    -- A frame that the player advances to, with no edit in between, is not recorded: both stacks
    -- stay as they are, and the new frame is what later edits are compared with.
    pub render-playback :
        (d : Display N) (index : ℕ) (replaced : Bool)
        → IsSettled d
        → (d.snapshot.timestep_index == index) ≡ false
        → let d' = render replaced (set_state d (set_playback_timestep index)) in
          (d'.past ≡ d.past)
          × (d'.future ≡ d.future)
          × (d'.snapshot ≡ record d.snapshot { timestep_index = index })
          × IsSettled d'
    unfolding render record_effect record_entry set_state
    render-playback d index replaced h moved =
        let frame : Snapshot N = record d.snapshot { timestep_index = index } in
        let changed : snapshots_equal d.snapshot frame ≡ false =
          differs_of_timestep d.snapshot frame moved in
        let same : snapshots_equal frame frame ≡ true = snapshots_equal_refl frame in
        rw (h.rendered, changed, ==_refl index, h.recorded, changed, same)
          (refl, refl, refl, record { rendered = refl; recorded = refl; manual = refl })
