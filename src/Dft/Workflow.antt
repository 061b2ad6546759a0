-- ===== src/Dft/Workflow.antt =====
-- src/material_agent/dft/workflows.py: workflow templates and the order of their tasks. A dictionary of sets is a
-- list of keys with lists, and Pydantic's validators are checks that raise.
pub mod Rounds
pub mod Order
pub mod Cycles
pub mod Registry
use materials_screening_agen.Prelude.{
  member, distinct, ℕ, zero, suc, String, ◌≡◌, Bool, true, false, not, ◌&&◌, ◌||◌, Option, none,
  some, List, [], ◌∷◌, ◌++◌, map, length, all, any, select, find?, ◌==◌, Eq, string_eq,
  if◌then◌else◌, Result, Check, ok, err, ◌>>=◌, ◌>>◌, raise_if, sort, text_le,
}

-- dft/models.py
pub data TaskType : Type 0 where
  preflight relaxation static_scf dos band_nscf mock_task : TaskType

pub record Task : Type 0 where
  pub task_key : String
  pub task_type : TaskType
  pub depends_on : List String
  pub required_output_names : List String
  pub validator_ids : List String

pub record ClaimDependency : Type 0 where
  pub claim_type : String
  pub supporting_task_keys : List String
  pub domain_validator_id : String

pub record Template : Type 0 where
  pub template_id : String
  pub version : String
  pub target_class : String
  pub tasks : List Task
  pub claim_dependencies : List ClaimDependency

-- The `ValueError`s, by their message, and `KeyError`; `exhausted` is a loop that has not ended.
pub data TemplateError : Type 0 where
  real_task own_dependency repeated_dependency repeated_output repeated_support : TemplateError
  repeated_key unknown_dependency missing_task cyclic exhausted repeated_rule : TemplateError
  repeated_template unregistered repeated_type : TemplateError

-- `set(ks) <= set(known)`
abbrev pub within : List String → List String → Bool
within known ks = all ks (λ k. member k known)

abbrev pub is_mock_task : TaskType → Bool
is_mock_task mock_task = true
is_mock_task _ = false

-- real_task_guard and unique_output_names
unfoldable pub check_task : Task → Check TemplateError
check_task t = do
  raise_if (not (distinct t.required_output_names)) repeated_output
  raise_if (is_mock_task t.task_type) real_task
  raise_if (member t.task_key t.depends_on) own_dependency
  raise_if (not (distinct t.depends_on)) repeated_dependency

-- unique_supporting_tasks
unfoldable pub check_claim : ClaimDependency → Check TemplateError
check_claim c = raise_if (not (distinct c.supporting_task_keys)) repeated_support

-- A row of `pending`: a key and the dependencies that are left.
abbrev pub Pending : Type 0
Pending = List (String × List String)

abbrev pub is_nil {ℓ} : {A : Type ℓ} → List A → Bool
is_nil [] = true
is_nil (_ ∷ _) = false

-- `dependencies.difference_update(done)`
abbrev pub without : List String → List String → List String
without done ks = select (λ k. not (member k done)) ks

abbrev pub ready_keys : Pending → List String
ready_keys [] = []
ready_keys ((k, ds) ∷ rest) = let more = ready_keys rest in if is_nil ds then k ∷ more else more

-- `pending.pop(key)` for each key of `ready`, and what is left of the dependencies.
unfoldable pub advance : List String → Pending → Pending
advance ready [] = []
advance ready ((k, ds) ∷ rest) =
    let more = advance ready rest in if member k ready then more else (k, without ready ds) ∷ more

-- The `while` of topological_task_keys.
unfoldable pub rounds : ℕ → Pending → List String → Result TemplateError (List String)
rounds fuel [] ordered = ok ordered
rounds zero (p ∷ ps) ordered = err exhausted
rounds (suc fuel) (p ∷ ps) ordered =
    let ready = sort text_le (ready_keys (p ∷ ps)) in
    let rest = rounds fuel (advance ready (p ∷ ps)) (ordered ++ ready) in
    if is_nil ready then err cyclic else rest

abbrev pub keys : List Task → List String
keys = map (λ t. t.task_key)

abbrev pub pending_task : Task → String × List String
pending_task t = (t.task_key, t.depends_on)

-- Each round takes a task at least, so there are at most as many rounds as tasks.
unfoldable pub topological_task_keys : List Task → Result TemplateError (List String)
topological_task_keys tasks = rounds (length tasks) (map pending_task tasks) []

abbrev unknown_dependency_of : List Task → Bool
unknown_dependency_of tasks = any tasks (λ t. not (within (keys tasks) t.depends_on))

abbrev pub missing_support : Template → Bool
missing_support t =
    any t.claim_dependencies (λ c. not (within (keys t.tasks) c.supporting_task_keys))

-- graph_guard
unfoldable pub check_template : Template → Check TemplateError
check_template t = do
  raise_if (not (distinct (keys t.tasks))) repeated_key
  raise_if (unknown_dependency_of t.tasks) unknown_dependency
  raise_if (missing_support t) missing_task
  order ← topological_task_keys t.tasks
  ok tt

abbrev pub at_most_one : List ClaimDependency → Result TemplateError (Option ClaimDependency)
at_most_one [] = ok none
at_most_one (c ∷ []) = ok (some c)
at_most_one (c ∷ d ∷ rest) = err repeated_rule

unfoldable pub claim_dependency : Template → String → Result TemplateError (Option ClaimDependency)
claim_dependency t claim_type =
    at_most_one (select (λ c. c.claim_type == claim_type) t.claim_dependencies)

-- WorkflowTemplateRegistry
unfoldable pub check_registry : List Template → Check TemplateError
check_registry ts = raise_if (not (distinct (map (λ t. t.template_id) ts))) repeated_template

unfoldable pub resolve : List Template → String → Result TemplateError Template
resolve ts id = elim (find? (λ t. t.template_id == id) ts) [
  | some t ↦ ok t
  | none ↦ err unregistered
]

abbrev pub task_type_value : TaskType → String
task_type_value preflight = "PREFLIGHT"
task_type_value relaxation = "RELAXATION"
task_type_value static_scf = "STATIC_SCF"
task_type_value dos = "DOS"
task_type_value band_nscf = "BAND_NSCF"
task_type_value mock_task = "MOCK_TASK"

unfoldable pub unique_task_types : List Task → Result TemplateError (List TaskType)
unique_task_types tasks = do
  raise_if (not (distinct (map (λ t. task_type_value t.task_type) tasks))) repeated_type
  ok (map (λ t. t.task_type) tasks)
