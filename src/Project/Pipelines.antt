-- ===== src/Project/Pipelines.antt =====
-- restorePipeline of frontend/src/hooks/usePipelineActions.ts: the way from the representation of a
-- stored pipeline to its reader. A view state is read by a function that is a parameter,
-- parseViewState of frontend/src/lib/viewState.ts.
pub mod Walks
use my_paraview_web.Common.{
  ℕ, zero, suc, Bool, true, false, ◌&&◌, ◌||◌, Option, none, some, List, [], ◌∷◌, find?, length,
  is_empty, if◌then◌else◌,
}
use my_paraview_web.Common.Eq.{Text, ◌===◌, contains, Units_eq}

pub data NodeType : Type 0 where
  reader filter representation : NodeType

-- A PipelineNode, of whose parameters only `view_state` is read, a value of type `V`.
pub record Node (V : Type 0) : Type 0 where
  pub id : Text
  pub node_type : NodeType
  pub input_id : Option Text
  pub dataset_id : Option Text
  pub view_state : V

abbrev pub is_reader : NodeType → Bool
is_reader reader = true
is_reader _ = false

abbrev pub is_representation : NodeType → Bool
is_representation representation = true
is_representation _ = false

-- How the loop ends: with `input`, which may be undefined.
pub data Walk (V : Type 0) : Type 0 where
  done : Option (Node V) → Walk V
  out_of_fuel : Walk V

-- `input?.input_id`, where the empty text is none too
abbrev pub given_text : Option Text → Option Text
given_text none = none
given_text (some t) = if is_empty t then none else some t

abbrev pub both {ℓ} : {S : Type ℓ} → Option Text → Option S → Option (Text × S)
both (some dataset) (some state) = some (dataset, state)
both _ _ = none

module _ {V : Type 0} where
  abbrev pub later_or : Option (Node V) → Option (Node V) → Option (Node V)
  later_or none this = this
  later_or (some later) this = some later

  -- `byId.get(id)`: of the nodes with an id the last stands in the map
  unfoldable pub node_with : List (Node V) → Text → Option (Node V)
  node_with [] id = none
  node_with (n ∷ ns) id = later_or (node_with ns id) (if n.id === id then some n else none)

  abbrev pub input_of : Option (Node V) → Option Text
  input_of none = none
  input_of (some n) = given_text n.input_id

  abbrev pub is_reader_node : Option (Node V) → Bool
  is_reader_node none = false
  is_reader_node (some n) = is_reader n.node_type

  -- A round of the loop, by the id that it looks up, and the rounds behind it.
  unfoldable pub round :
      (Text → Walk V) → List (Node V) → List Text → Option (Node V) → Option Text → Walk V
  round rest nodes visited input none = done input
  round rest nodes visited input (some id) =
      if contains visited id
      then done input
      else (if is_reader_node (node_with nodes id) then done (node_with nodes id) else rest id)

  unfoldable pub walk : List (Node V) → ℕ → List Text → Option (Node V) → Walk V
  unfolding round
  walk nodes zero visited input = out_of_fuel
  walk nodes (suc fuel) visited input =
      round (λ id. walk nodes fuel (id ∷ visited) (node_with nodes id)) nodes visited input
        (input_of input)

  -- `if (!input?.dataset_id || input.node_type !== "reader" || !state)`: the dataset of the reader
  abbrev pub reader_dataset : Walk V → Option Text
  reader_dataset (done (some n)) = if is_reader n.node_type then given_text n.dataset_id else none
  reader_dataset _ = none

  abbrev pub view_state_of : Option (Node V) → Option V
  view_state_of none = none
  view_state_of (some n) = some n.view_state

  unfoldable pub restore_walk : List (Node V) → Walk V
  unfolding walk node_with
  restore_walk nodes =
      walk nodes (suc (suc (length nodes))) [] (find? (λ n. is_representation n.node_type) nodes)

  -- What is selected and restored; `none` is the message that the state cannot be read.
  unfoldable pub restore_plan {ℓ} :
      {S : Type ℓ} → (parse : Option V → Option S) → List (Node V) → Option (Text × S)
  unfolding restore_walk
  restore_plan parse nodes =
      both (reader_dataset (restore_walk nodes))
        (parse (view_state_of (find? (λ n. is_representation n.node_type) nodes)))
