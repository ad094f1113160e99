-- ===== src/Project/Pipelines/Walks.antt =====
-- The loop of restorePipeline ends, at a node that the links of the pipeline lead to.
use my_paraview_web.Common.{
  ℕ, zero, suc, ◌+◌, ◌≤◌, ◌<◌, true, false, Option, none, some, List, [], ◌∷◌, find?, length,
  if◌then◌else◌, ◌≡◌, ◌≢◌, refl, sym, ap, subst, Bool-cases, Option-cases, inl, inr, arith,
  some_injective,
}
use my_paraview_web.Common.Eq.{Text, contains, Units_eq, same_units}
use my_paraview_web.Project.Pipelines.{
  Node, is_reader, is_representation, Walk, done, out_of_fuel, given_text, node_with, input_of,
  is_reader_node, walk, round, reader_dataset, restore_walk, restore_plan, both, view_state_of,
}

-- The nodes that are not visited yet.
abbrev unvisited : {V : Type 0} → List Text → List (Node V) → ℕ
unvisited visited [] = 0
unvisited visited (n ∷ ns) = (if contains visited n.id then 0 else 1) + unvisited visited ns

both_lem {ℓ} :
    {S : Type ℓ} (a : Option Text) (b : Option S) {dataset : Text} {state : S}
    → both a b ≡ some (dataset, state)
    → (a ≡ some dataset) × (b ≡ some state)
both_lem (some x) (some y) h =
    (ap (λ p. some p.0) (some_injective h), ap (λ p. some p.1) (some_injective h))
both_lem (some x) none h = cc
both_lem none b h = cc

module _ {V : Type 0} where
  unvisited-le : (nodes : List (Node V)) → unvisited [] nodes ≤ length nodes
  unvisited-le [] = omega arith
  unvisited-le (n ∷ ns) = omega (arith, unvisited-le ns)

  unvisited-more_le :
      (id : Text) (visited : List Text) (nodes : List (Node V))
      → unvisited (id ∷ visited) nodes ≤ unvisited visited nodes
  unvisited-more_le id visited [] = omega arith
  unvisited-more_le id visited (n ∷ ns) = ground (arith, unvisited-more_le id visited ns)

  -- An id that is new and names a node leaves fewer nodes.
  unvisited-found :
      (id : Text) (visited : List Text) (nodes : List (Node V)) {n : Node V}
      → contains visited id ≡ false
      → node_with nodes id ≡ some n
      → unvisited (id ∷ visited) nodes < unvisited visited nodes
  unfolding node_with
  unvisited-found id visited [] f h = cc
  unvisited-found id visited (m ∷ ns) f h =
      let less = unvisited-more_le id visited ns in
      elim (Bool-cases (same_units m.id id)) [
        | inl t ↦
            let same : m.id ≡ id = (Units_eq.beq_iff m.id id).0 t in
            let other : same_units id m.id ≡ true = (Units_eq.beq_iff id m.id).1 (sym same) in
            let new : contains visited m.id ≡ false = rw same f in ground arith
        | inr g ↦ elim (Option-cases (node_with ns id)) [
          | inl e ↦ let q = rw (e, g) at h in cc
          | inr (k, e) ↦ let ih = unvisited-found id visited ns f e in ground arith
        ]
      ]

  walk-none :
      (nodes : List (Node V)) (fuel : ℕ) (visited : List Text)
      → 0 < fuel
      → walk nodes fuel visited none ≢ out_of_fuel
  unfolding walk round
  walk-none nodes zero visited h q = absurd (omega arith)
  walk-none nodes (suc fuel) visited h q = cc

  walk-ends :
      (nodes : List (Node V)) (fuel : ℕ) (visited : List Text) (input : Option (Node V))
      → unvisited visited nodes + 1 < fuel
      → walk nodes fuel visited input ≢ out_of_fuel
  unfolding walk round
  walk-ends nodes zero visited input h = absurd (omega arith)
  walk-ends nodes (suc fuel) visited input h = elim (Option-cases (input_of input)) [
    | inl e ↦ rw e (λ q. cc)
    | inr (id, e) ↦ elim (Bool-cases (contains visited id)) [
      | inl seen ↦ rw (e, seen) (λ q. cc)
      | inr new ↦ elim (Option-cases (node_with nodes id)) [
        | inl missing ↦ rw (e, new, missing) (walk-none nodes fuel (id ∷ visited) (omega arith))
        | inr (n, found) ↦
            let fewer = unvisited-found id visited nodes new found in
            let ih = walk-ends nodes fuel (id ∷ visited) (some n) (omega arith) in
            elim (Bool-cases (is_reader n.node_type)) [
              | inl last ↦ rw (e, new, found, last) (λ q. cc)
              | inr more ↦ rw (e, new, found, more) ih
            ]
      ]
    ]
  ]

  -- The nodes that the links lead to, through the nodes that the map holds.
  pub data Reaches (nodes : List (Node V)) : Option (Node V) → Option (Node V) → Type 0 where
    here : {n : Option (Node V)} → Reaches nodes n n
    through :
        {n m : Option (Node V)} (id : Text)
        → input_of n ≡ some id
        → Reaches nodes (node_with nodes id) m
        → Reaches nodes n m

  walk-Reaches :
      (nodes : List (Node V)) (fuel : ℕ) (visited : List Text) (input : Option (Node V))
      {last : Option (Node V)}
      → walk nodes fuel visited input ≡ done last
      → Reaches nodes input last
  unfolding walk round
  walk-Reaches nodes zero visited input h = cc
  walk-Reaches nodes (suc fuel) visited input {last} h = elim (Option-cases (input_of input)) [
    | inl e ↦
        let same : input ≡ last = let q = rw e at h in cc in subst (Reaches nodes input) same here
    | inr (id, e) ↦ elim (Bool-cases (contains visited id)) [
      | inl seen ↦
          let same : input ≡ last = let q = rw (e, seen) at h in cc in
          subst (Reaches nodes input) same here
      | inr new ↦ elim (Bool-cases (is_reader_node (node_with nodes id))) [
        | inl at_reader ↦
            let same : node_with nodes id ≡ last = let q = rw (e, new, at_reader) at h in cc in
            through id e (subst (Reaches nodes (node_with nodes id)) same here)
        | inr more ↦
            through id e
              (walk-Reaches nodes fuel (id ∷ visited) (node_with nodes id) (rw (e, new, more) at h))
      ]
    ]
  ]

  ended : (w : Walk V) → w ≢ out_of_fuel → (last : Option (Node V)) × (w ≡ done last)
  ended (done last) h = (last, refl)
  ended out_of_fuel h = absurd (h refl)

  -- The loop ends on every pipeline, links in a circle or to no node included, and the node that it
  -- ends with is one that the links lead to from the first representation.
  pub restore_walk-Reaches :
      (nodes : List (Node V))
      → (last : Option (Node V)) × (restore_walk nodes ≡ done last)
        × Reaches nodes (find? (λ n. is_representation n.node_type) nodes) last
  unfolding restore_walk
  restore_walk-Reaches nodes =
      let first = find? (λ (n : Node V). is_representation n.node_type) nodes in
      let few = unvisited-le nodes in
      let (last, e) =
        ended (walk nodes (suc (suc (length nodes))) [] first)
          (walk-ends nodes (suc (suc (length nodes))) [] first (omega arith)) in
      (last, e, walk-Reaches nodes (suc (suc (length nodes))) [] first e)

  reader_dataset_lem :
      (last : Option (Node V)) {dataset : Text}
      → reader_dataset (done last) ≡ some dataset
      → (n : Node V) × (last ≡ some n)
        × (is_reader n.node_type ≡ true)
        × (given_text n.dataset_id ≡ some dataset)
  reader_dataset_lem none h = cc
  reader_dataset_lem (some n) h = elim (Bool-cases (is_reader n.node_type)) [
    | inl t ↦ (n, refl, t, rw t at h)
    | inr f ↦ let q = rw f at h in cc
  ]

  -- What is restored: the dataset of a reader that the links lead to from the first representation,
  -- and the view state of that representation.
  pub restore_plan-Reaches {ℓ} :
      {S : Type ℓ} (parse : Option V → Option S) (nodes : List (Node V)) {dataset : Text}
      {state : S}
      → restore_plan parse nodes ≡ some (dataset, state)
      → let first = find? (λ n. is_representation n.node_type) nodes in
        (n : Node V) × Reaches nodes first (some n)
        × (is_reader n.node_type ≡ true)
        × (given_text n.dataset_id ≡ some dataset)
        × (parse (view_state_of first) ≡ some state)
  unfolding restore_plan
  restore_plan-Reaches parse nodes h =
      let (last, ends, reach) = restore_walk-Reaches nodes in
      let (at_reader, parsed) = both_lem (reader_dataset (restore_walk nodes)) _ h in
      let (n, same, r, d) = reader_dataset_lem last (rw ends at at_reader) in
      (n, subst (Reaches nodes _) same reach, r, d, parsed)
