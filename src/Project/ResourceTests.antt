-- ===== src/Project/ResourceTests.antt =====
-- The resources of a project and the restoring of pipelines, on small states.
use my_paraview_web.Common.{ℕ, true, Option, none, some, List, [], ◌∷◌, ◌≡◌, refl, find?}
use my_paraview_web.Common.Eq.{Text, codes, contains, Units_eq}
use my_paraview_web.Common.Result.{ok}
use my_paraview_web.Project.Scope.{Ticket, capture}
use my_paraview_web.Project.Resources.{
  Item, Resources, Answer, datasets_listed, dataset_read, ResourceEvent, project_switched,
  selection_requested, answered, resource_run, take_answer,
}
use my_paraview_web.Project.Banners.{push_error, banner_run, BannerEvent, pushed}
use my_paraview_web.Project.Banners.Few.{IsFew, banner_run-IsFew}
use my_paraview_web.Project.Resources.Own.{IsOwn, resource_run-IsOwn}
use my_paraview_web.Project.Resources.Stale.{take_answer-switched}
use my_paraview_web.Project.Pipelines.{
  Node, reader, filter, representation, is_reader, is_representation, given_text, done,
  restore_walk, restore_plan, view_state_of,
}
use my_paraview_web.Project.Pipelines.Walks.{Reaches, restore_walk-Reaches, restore_plan-Reaches}

abbrev p1 : Text
p1 = codes "p1"

abbrev at_p1 : Resources ℕ
at_p1 = record {
  scope = record {
    current_project = some p1;
    project_epoch = 4;
    selection_request = 9;
    selected_dataset = none;
  };
  datasets = [];
  pipelines = [];
  membership = none;
  members = [];
  artifacts = [];
  prefixes = record {
    dataset = codes "Datasets";
    pipeline = codes "Pipelines";
    member = codes "Members";
    artifact = codes "Artifacts";
  };
  errors = [];
}

abbrev ticket : Ticket
ticket = record { project_id = p1; epoch = 4; selection_request = 9 }

abbrev dataset : Item ℕ
dataset = record { id = codes "d1"; project_id = p1; rest = 3 }

abbrev newer : Item ℕ
newer = record { id = codes "d1"; project_id = p1; rest = 4 }

abbrev events : List (ResourceEvent ℕ)
events =
    answered (datasets_listed (some ticket) p1 (ok (dataset ∷ [])))
    ∷ selection_requested
    ∷ answered (dataset_read ticket 10 (codes "d1") (ok newer))
    ∷ []

listed_and_selected :
    ((resource_run events at_p1).datasets ≡ newer ∷ [])
    × ((resource_run events at_p1).scope.selected_dataset ≡ some (codes "d1"))
unfolding resource_run
listed_and_selected = (refl, refl)

resource_run-IsOwn_example : IsOwn (resource_run events at_p1)
resource_run-IsOwn_example =
    resource_run-IsOwn events at_p1 ((refl, tt), (tt, (tt, tt)))
      (record {
        own_datasets = tt;
        own_pipelines = tt;
        own_membership = tt;
        own_members = tt;
        own_artifacts = tt;
      })

abbrev there_and_back : List (ResourceEvent ℕ)
there_and_back = project_switched (codes "p2") ∷ project_switched p1 ∷ []

abbrev late : Answer ℕ
late = datasets_listed (some ticket) p1 (ok (dataset ∷ []))

captured : capture at_p1.scope ≡ some ticket
unfolding capture
captured = refl

take_answer-switched_example :
    take_answer late (resource_run there_and_back at_p1) ≡ resource_run there_and_back at_p1
take_answer-switched_example =
    take_answer-switched at_p1 there_and_back ticket late captured refl refl

-- A representation over a filter over a reader, and two filters in a circle.
abbrev nodes : List (Node ℕ)
nodes =
    record {
      id = codes "r";
      node_type = reader;
      input_id = none;
      dataset_id = some (codes "d1");
      view_state = 0;
    }
    ∷ record {
      id = codes "f";
      node_type = filter;
      input_id = some (codes "r");
      dataset_id = none;
      view_state = 0;
    }
    ∷ record {
      id = codes "v";
      node_type = representation;
      input_id = some (codes "f");
      dataset_id = none;
      view_state = 7;
    }
    ∷ []

abbrev circle : List (Node ℕ)
circle =
    record {
      id = codes "f";
      node_type = filter;
      input_id = some (codes "v");
      dataset_id = none;
      view_state = 0;
    }
    ∷ record {
      id = codes "v";
      node_type = representation;
      input_id = some (codes "f");
      dataset_id = none;
      view_state = 7;
    }
    ∷ []

abbrev as_read : Option ℕ → Option ℕ
as_read s = s

plan_of_nodes : restore_plan as_read nodes ≡ some (codes "d1", 7)
unfolding restore_plan
plan_of_nodes = refl

plan_of_circle : restore_plan as_read circle ≡ none
unfolding restore_plan
plan_of_circle = refl

restore_walk-Reaches_example :
    (last : Option (Node ℕ)) × (restore_walk circle ≡ done last)
    × Reaches circle (find? (λ n. is_representation n.node_type) circle) last
restore_walk-Reaches_example = restore_walk-Reaches circle

restore_plan-Reaches_example :
    let first = find? (λ n. is_representation n.node_type) nodes in
    (n : Node ℕ) × Reaches nodes first (some n)
    × (is_reader n.node_type ≡ true)
    × (given_text n.dataset_id ≡ some (codes "d1"))
    × (as_read (view_state_of first) ≡ some 7)
restore_plan-Reaches_example = restore_plan-Reaches as_read nodes plan_of_nodes

abbrev four_messages : List BannerEvent
four_messages =
    pushed (codes "a")
    ∷ pushed (codes "b")
    ∷ pushed (codes "c")
    ∷ pushed (codes "b")
    ∷ pushed (codes "d")
    ∷ []

messages_kept : banner_run four_messages [] ≡ codes "b" ∷ codes "c" ∷ codes "d" ∷ []
unfolding banner_run
messages_kept = refl

banner_run-IsFew_example :
    IsFew (banner_run four_messages [])
    × (contains (push_error (codes "e") (banner_run four_messages [])) (codes "e") ≡ true)
banner_run-IsFew_example = banner_run-IsFew four_messages (codes "e")
