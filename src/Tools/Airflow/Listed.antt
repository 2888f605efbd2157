-- ===== src/Tools/Airflow/Listed.antt =====
-- About the reading of a serialised DAG (src/dag_doctor/tools/airflow_metadata.py,
-- _downstream_edges).
use dag_doctor.Base.{
  ◌≡◌, refl, sym, ap, ◌∙◌, arith, Bool-cases, inl, inr, false, Option, none, some, List, [], ◌∷◌,
  Text, same_text, same_text_eq, if◌then◌else◌,
}
use dag_doctor.Core.Json.{Json, null, bool, number, str, arr, obj, Fields, Items, nil, cons, get}
use dag_doctor.Tools.Upstream.{Edges}
use dag_doctor.Tools.Airflow.{
  put_edges, strings_of, edge_of, body_of, task_edges, tasks_of, dag_of, downstream_edges,
}

-- What the edges say of a task.
abbrev pub children_in : Text → List Edges → Option (List Text)
children_in id [] = none
children_in id (e ∷ es) =
    let rest = children_in id es in if same_text id e.parent then some e.children else rest

-- The id and the children of one body, where it has both: the children of `id`, if that is its id.
abbrev listed_in : Text → Option Json → Option Json → Option (List Text)
listed_in id (some (str t)) (some (arr items)) =
    if same_text id t then some (strings_of items) else none
listed_in id _ _ = none

abbrev listed_in_body : Text → Fields → Option (List Text)
listed_in_body id fields = listed_in id (get "task_id" fields) (get "downstream_task_ids" fields)

-- Of a task, its own fields, or those of the object that is under `__var`.
abbrev listed_by_fields : Text → Fields → Option Json → Option (List Text)
listed_by_fields id fields (some (obj inner)) = listed_in_body id inner
listed_by_fields id fields _ = listed_in_body id fields

abbrev listed_by : Text → Json → Option (List Text)
listed_by id (obj fields) = listed_by_fields id fields (get "__var" fields)
listed_by id _ = none

abbrev or_earlier : Option (List Text) → Option (List Text) → Option (List Text)
or_earlier (some later) earlier = some later
or_earlier none earlier = earlier

-- The children that the last task with an id lists for it.
abbrev pub last_listed : Text → Items → Option (List Text)
last_listed id nil = none
last_listed id (cons task tasks) = or_earlier (last_listed id tasks) (listed_by id task)

children_in-put_edges :
    (id task_id : Text) (children : List Text) (known : List Edges)
    → children_in id (put_edges task_id children known)
      ≡ (if same_text id task_id then some children else children_in id known)
unfolding put_edges
children_in-put_edges id task_id children [] = refl
children_in-put_edges id task_id children (e ∷ es) =
    elim (Bool-cases (same_text e.parent task_id)) [
      | inl q ↦
          let p : same_text id e.parent ≡ same_text id task_id =
            ap (same_text id) (same_text_eq e.parent task_id q) in
          rw q (ground arith)
      | inr q ↦
          rw (q, children_in-put_edges id task_id children es)
            (elim (Bool-cases (same_text id e.parent)) [
              | inl h ↦
                  let p : same_text id task_id ≡ false =
                    ap (λ z. same_text z task_id) (same_text_eq id e.parent h) ∙ q in
                  rw (h, p) refl
              | inr h ↦ rw h refl
            ])
    ]

when_listed :
    (id t : Text) (children : List Text) (earlier : Option (List Text))
    → (if same_text id t then some children else earlier)
      ≡ or_earlier (if same_text id t then some children else none) earlier
when_listed id t children earlier = elim (Bool-cases (same_text id t)) [
  | inl e ↦ rw e refl
  | inr e ↦ rw e refl
]

children_in-edge_of :
    (id : Text) (name children : Option Json) (known : List Edges)
    → children_in id (edge_of name children known)
      ≡ or_earlier (listed_in id name children) (children_in id known)
unfolding edge_of
children_in-edge_of id none children known = refl
children_in-edge_of id (some null) children known = refl
children_in-edge_of id (some (bool b)) children known = refl
children_in-edge_of id (some (number n)) children known = refl
children_in-edge_of id (some (arr js)) children known = refl
children_in-edge_of id (some (obj fs)) children known = refl
children_in-edge_of id (some (str t)) none known = refl
children_in-edge_of id (some (str t)) (some null) known = refl
children_in-edge_of id (some (str t)) (some (bool b)) known = refl
children_in-edge_of id (some (str t)) (some (number n)) known = refl
children_in-edge_of id (some (str t)) (some (str s)) known = refl
children_in-edge_of id (some (str t)) (some (obj fs)) known = refl
children_in-edge_of id (some (str t)) (some (arr js)) known =
    children_in-put_edges id t (strings_of js) known
    ∙ when_listed id t (strings_of js) (children_in id known)

listed_in-body_of :
    (id : Text) (fields : Fields) (o : Option Json)
    → listed_in_body id (body_of o fields) ≡ listed_by_fields id fields o
unfolding body_of
listed_in-body_of id fields none = refl
listed_in-body_of id fields (some null) = refl
listed_in-body_of id fields (some (bool b)) = refl
listed_in-body_of id fields (some (number n)) = refl
listed_in-body_of id fields (some (str t)) = refl
listed_in-body_of id fields (some (arr js)) = refl
listed_in-body_of id fields (some (obj inner)) = refl

or_earlier_assoc :
    (a b c : Option (List Text)) → or_earlier a (or_earlier b c) ≡ or_earlier (or_earlier a b) c
or_earlier_assoc none b c = refl
or_earlier_assoc (some a) b c = refl

or_earlier-none : (a b : Option (List Text)) → b ≡ none → or_earlier a b ≡ a
or_earlier-none none b e = e
or_earlier-none (some a) b e = refl

last_listed_skip :
    (id : Text) (tasks : Items) (earlier : Option (List Text))
    → or_earlier (last_listed id tasks) earlier
      ≡ or_earlier (or_earlier (last_listed id tasks) none) earlier
last_listed_skip id tasks earlier =
    ap (λ o. or_earlier o earlier) (sym (or_earlier-none (last_listed id tasks) none refl))

children_in-task_edges :
    (id : Text) (tasks : Items) (known : List Edges)
    → children_in id (task_edges tasks known)
      ≡ or_earlier (last_listed id tasks) (children_in id known)
unfolding task_edges
children_in-task_edges id nil known = refl
children_in-task_edges id (cons (obj fields) tasks) known =
    let body = body_of (get "__var" fields) fields in
    let name = get "task_id" body in
    let children = get "downstream_task_ids" body in
    children_in-task_edges id tasks (edge_of name children known)
    ∙ (ap (or_earlier (last_listed id tasks)) (
          children_in-edge_of id name children known
          ∙ ap (λ o. or_earlier o (children_in id known))
              (listed_in-body_of id fields (get "__var" fields)))
        ∙ or_earlier_assoc (last_listed id tasks) (listed_by id (obj fields))
            (children_in id known))
children_in-task_edges id (cons null tasks) known =
    children_in-task_edges id tasks known ∙ last_listed_skip id tasks (children_in id known)
children_in-task_edges id (cons (bool b) tasks) known =
    children_in-task_edges id tasks known ∙ last_listed_skip id tasks (children_in id known)
children_in-task_edges id (cons (number n) tasks) known =
    children_in-task_edges id tasks known ∙ last_listed_skip id tasks (children_in id known)
children_in-task_edges id (cons (str t) tasks) known =
    children_in-task_edges id tasks known ∙ last_listed_skip id tasks (children_in id known)
children_in-task_edges id (cons (arr js) tasks) known =
    children_in-task_edges id tasks known ∙ last_listed_skip id tasks (children_in id known)

-- From any JSON with a list of tasks under `dag`, whatever else it holds, the edges that are read say
-- of each id the children, those that are strings, that the last task with that id lists, where a task
-- is an object, its id a string, its children a list, and both are read under `__var` where that holds
-- an object; they say nothing of an id that no such task has.
pub children_in-downstream_edges :
    (payload dag : Fields) (tasks : Items) (id : Text)
    → get "dag" payload ≡ some (obj dag)
    → get "tasks" dag ≡ some (arr tasks)
    → children_in id (downstream_edges (obj payload)) ≡ last_listed id tasks
unfolding downstream_edges dag_of tasks_of
children_in-downstream_edges payload dag tasks id e h =
    rw (e, h)
      (children_in-task_edges id tasks [] ∙ or_earlier-none (last_listed id tasks) none refl)
