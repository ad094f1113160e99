-- ===== src/Jobs/Merge.antt =====
-- Theorems on `mergeJobSnapshots` of frontend/src/lib/job.ts.
use my_paraview_web.Common.{
  ◌≡◌, refl, sym, subst, ◌∙◌, Bool, false, Option, none, some, List, [], ◌∷◌, Bool-cases,
  some_injective, inl, inr,
}
use my_paraview_web.Common.Eq.{Eq, ◌===◌, beq_refl}
use my_paraview_web.Jobs.{Job, same_job, get_job, set_job, merge_job, merge_all}

module _ {T N : Type 0} ⦃e : Eq T⦄ where
  get_job-set_same :
      (jobs : List (Job T N)) (job : Job T N) → get_job (set_job jobs job) job.id ≡ some job
  unfolding set_job
  get_job-set_same [] job = rw (beq_refl job.id) refl
  get_job-set_same (j ∷ jobs) job = elim (Bool-cases (j.id === job.id)) [
    | inl same ↦ rw (same, beq_refl job.id) refl
    | inr differs ↦ rw (differs, differs) (get_job-set_same jobs job)
  ]

  get_job-set_other :
      (jobs : List (Job T N)) (job : Job T N) (id : T)
      → (job.id === id) ≡ false
      → get_job (set_job jobs job) id ≡ get_job jobs id
  unfolding set_job
  get_job-set_other [] job id other = rw other refl
  get_job-set_other (j ∷ jobs) job id other = elim (Bool-cases (j.id === job.id)) [
    | inl same ↦
        let is : j.id ≡ job.id = (e.beq_iff j.id job.id).0 same in rw (same, other, is, other) refl
    | inr differs ↦ elim (Bool-cases (j.id === id)) [
      | inl here ↦ rw (differs, here) refl
      | inr there ↦ rw (differs, there) (get_job-set_other jobs job id other)
    ]
  ]

  module _ ⦃f : Eq N⦄ (later : T → T → Bool) (later_irreflexive : (t : T) → later t t ≡ false)
      (later_transitive : (a b c : T)
        → later a b ≡ false
        → later b c ≡ false
        → later a c ≡ false) where
    -- The job of the id `id`, of which `p` was an earlier snapshot, is not older than `p`.
    abbrev pub IsNotBehind : List (Job T N) → T → Job T N → Type 0
    IsNotBehind merged id p =
        (m : Job T N) × (get_job merged id ≡ some m) × (later p.updated_at m.updated_at ≡ false)

    IsNotBehind-set_job :
        (merged : List (Job T N)) (job : Job T N) (id : T) (p : Job T N)
        → get_job merged id ≡ some p
        → ((job.id ≡ id) → later p.updated_at job.updated_at ≡ false)
        → IsNotBehind (set_job merged job) id p
    IsNotBehind-set_job merged job id p there newer = elim (Bool-cases (job.id === id)) [
      | inl same ↦
          let is : job.id ≡ id = (e.beq_iff job.id id).0 same in
          (
            job,
            subst (λ x. get_job (set_job merged job) x ≡ some job) is (get_job-set_same merged job),
            newer is,
          )
      | inr other ↦
          (p, get_job-set_other merged job id other ∙ there, later_irreflexive p.updated_at)
    ]

    IsNotBehind-merge_job :
        (merged : List (Job T N)) (job : Job T N) (o : Option (Job T N)) (id : T) (p : Job T N)
        → get_job merged job.id ≡ o
        → get_job merged id ≡ some p
        → IsNotBehind (merge_job later merged job o) id p
    unfolding merge_job
    IsNotBehind-merge_job merged job none id p found there =
        IsNotBehind-set_job merged job id p there (λ is. let bad = rw is at found in cc)
    IsNotBehind-merge_job merged job (some q) id p found there =
        elim (Bool-cases (later q.updated_at job.updated_at)) [
          | inl older ↦ rw older (p, there, later_irreflexive p.updated_at)
          | inr newer ↦ elim (Bool-cases (same_job q job)) [
            | inl same ↦ rw (newer, same) (p, there, later_irreflexive p.updated_at)
            | inr changed ↦
                rw (newer, changed)
                  (IsNotBehind-set_job merged job id p there (λ is.
                    let q_is : q ≡ p = some_injective (sym (rw is at found) ∙ there) in
                    rw q_is at newer))
          ]
        ]

    -- If the operator on times is irreflexive and its negation is transitive, then whatever
    -- snapshots come in, in whatever order, the job that is kept for an id is never older than the
    -- one that was there.
    pub merge_all_keeps_newest :
        (merged jobs : List (Job T N)) (id : T) {p : Job T N}
        → get_job merged id ≡ some p
        → IsNotBehind (merge_all later merged jobs) id p
    unfolding merge_all
    merge_all_keeps_newest merged [] id {p} there = (p, there, later_irreflexive p.updated_at)
    merge_all_keeps_newest merged (job ∷ jobs) id {p} there =
        let (m, first, newer) =
          IsNotBehind-merge_job merged job (get_job merged job.id) id p refl there in
        let (n, rest, newest) =
          merge_all_keeps_newest (merge_job later merged job (get_job merged job.id)) jobs id
            first in
        (n, rest, later_transitive p.updated_at m.updated_at n.updated_at newer newest)
