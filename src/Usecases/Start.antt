-- ===== src/Usecases/Start.antt =====
-- The part of usecases/src/start.rs that starts a batch of services. `none` is an internal error of the source.
use pm.Base.{
  ℕ, Bool, false, not, Option, none, some, List, [], ◌∷◌, ◌++◌, map, any, filter, is_empty, Text,
  text_eq, contains_text, Result, ok, err, if◌then◌else◌,
}
use pm.Entities.Depgraph.{DependencyNode, topo_sort}
use pm.Entities.Spec.{AppSpec, dependency_node, validate_spec}
use pm.Usecases.Ports.{Ports, UsecaseError, spec_error, dependency_error}
use pm.Usecases.Launch.{register, deferred, StartOutcome, outcome_of, launch}
use pm.Usecases.Record.{awaits_ready}
use pm.Usecases.Selector.{name as by_name}
use pm.Usecases.Table.{ProcessTable, find_by_name, upsert, remove, dependency_nodes, save_table}

pub record DeferredStart : Type 0 where
  pub name : Text
  pub waiting_on : List Text

pub record StartReport : Type 0 where
  pub outcomes : List StartOutcome
  pub failure : Option UsecaseError
  pub unsaved : Option UsecaseError
  pub pending : List DeferredStart

abbrev refused : UsecaseError → StartReport
refused error = record { outcomes = []; failure = some error; unsaved = none; pending = [] }

unfoldable pub waiting_dependencies : AppSpec → List Text → List Text
waiting_dependencies spec waiting = filter (λ d. contains_text waiting d) spec.depends_on

unfoldable pub names_include : List AppSpec → Text → Bool
names_include specs candidate = any (λ spec. text_eq spec.name candidate) specs

unfoldable pub validate_specs : List AppSpec → Result (Unit {0}) UsecaseError
validate_specs [] = ok tt
validate_specs (spec ∷ rest) = elim (validate_spec spec) [
  | ok _ ↦ validate_specs rest
  | err e ↦ err (spec_error e)
]

-- The nodes of the batch, then those of the table that the batch does not redeclare.
unfoldable pub start_nodes : ProcessTable → List AppSpec → List DependencyNode
start_nodes table specs =
    map dependency_node specs
    ++ filter (λ node. not (names_include specs node.name)) (dependency_nodes table)

unfoldable pub start_order : ProcessTable → List AppSpec → Option (Result (List Text) UsecaseError)
start_order table specs = elim (topo_sort (start_nodes table specs)) [
  | none ↦ none
  | some (err e) ↦ some (err (dependency_error e))
  | some (ok order) ↦ some (ok (filter (names_include specs) order))
]

unfoldable pub accepted_order :
    ProcessTable → List AppSpec → Option (Result (List Text) UsecaseError)
accepted_order table specs = elim (validate_specs specs) [
  | ok _ ↦ start_order table specs
  | err e ↦ some (err e)
]

-- The specs' names with what the table declared before, and the table with the specs upserted.
unfoldable pub upsert_all :
    List AppSpec → ℕ → ProcessTable → List (Text × Option AppSpec) × ProcessTable
upsert_all [] now_ms table = ([], table)
upsert_all (spec ∷ specs) now_ms table =
    let prior : Option AppSpec = elim (find_by_name spec.name table) [
      | none ↦ none
      | some r ↦ some r.spec
    ] in
    let (previous, table') = upsert_all specs now_ms (upsert spec now_ms table).0 in
    ((spec.name, prior) ∷ previous, table')

unfoldable pub forget_unlaunched :
    List (Text × Option AppSpec) → List StartOutcome → ℕ → ProcessTable → ProcessTable
forget_unlaunched [] outcomes now_ms table = table
forget_unlaunched ((name, prior) ∷ previous) outcomes now_ms table =
    forget_unlaunched previous outcomes now_ms (
      if any (λ o. text_eq o.name name) outcomes then table else elim prior [
        | some spec ↦ (upsert spec now_ms table).0
        | none ↦ (remove (by_name name) table).0
      ])

-- `by_name[name]`: the map of a batch holds the last spec of a name.
unfoldable pub last_spec : Text → List AppSpec → Option AppSpec
last_spec name [] = none
last_spec name (spec ∷ specs) = elim (last_spec name specs) [
  | some later ↦ some later
  | none ↦ if text_eq spec.name name then some spec else none
]

unfoldable pub refused_services : List Text → List StartOutcome → List Text
refused_services requested outcomes =
    filter (λ name. not (any (λ o. text_eq o.name name) outcomes)) requested

pub data StartSettlement : Type 0 where
  committed : StartSettlement
  partial : (refused : List Text) → StartSettlement
  unsaved : StartSettlement

unfoldable pub settle_start : List Text → Option Text → StartSettlement
settle_start [] none = committed
settle_start [] (some reason) = StartSettlement.unsaved
settle_start (name ∷ names) reason = partial (name ∷ names)

-- The loop over the order: the table, the report so far, and the services that are not ready.
pub record Progress (W : Type 0) : Type 0 where
  pub table : ProcessTable
  pub report : StartReport
  pub waiting : List Text
  pub world : W

module _ {W : Type 0} (ports : Ports W) where
  unfoldable pub defer_one : Text → List Text → Progress W → Option (Progress W)
  defer_one name waiting_on s = elim (find_by_name name s.table) [
    | none ↦ none
    | some r ↦
        let report = s.report in
        some (record s {
          report = record report {
            outcomes = report.outcomes ++ outcome_of r name none deferred ∷ [];
            pending = report.pending ++ record { name = name; waiting_on = waiting_on } ∷ [];
          };
          waiting = name ∷ s.waiting;
        })
  ]

  unfoldable pub awaits_ready_in : ProcessTable → Text → Bool
  awaits_ready_in table name = elim (find_by_name name table) [
    | none ↦ false
    | some r ↦ awaits_ready r
  ]

  unfoldable pub launch_in_batch : Text → Text → Progress W → Option (Progress W)
  launch_in_batch name logs_dir s =
      let report = s.report in
      elim (launch ports s.table name logs_dir register s.world) [
        | none ↦ none
        | some (err e, table', w') ↦
            some
              (record s { table = table'; world = w'; report = record report { failure = some e } })
        | some (ok outcome, table', w') ↦ some (record s {
          table = table';
          world = w';
          report = record report { outcomes = report.outcomes ++ outcome ∷ [] };
          waiting = if awaits_ready_in table' name then name ∷ s.waiting else s.waiting;
        })
      ]

  unfoldable pub start_step : List AppSpec → Text → Text → Progress W → Option (Progress W)
  start_step specs logs_dir name s = elim (last_spec name specs) [
    | none ↦ none
    | some spec ↦
        if is_empty (waiting_dependencies spec s.waiting)
        then launch_in_batch name logs_dir s
        else defer_one name (waiting_dependencies spec s.waiting) s
  ]

  -- The `break` on a failure ends the loop.
  unfoldable pub start_each : List AppSpec → Text → List Text → Progress W → Option (Progress W)
  start_each specs logs_dir [] s = some s
  start_each specs logs_dir (name ∷ order) s = elim (start_step specs logs_dir name s) [
    | none ↦ none
    | some s' ↦ elim s'.report.failure [
      | some e ↦ some s'
      | none ↦ start_each specs logs_dir order s'
    ]
  ]

  unfoldable pub finish_start :
      List (Text × Option AppSpec) → ℕ → Progress W → StartReport × ProcessTable × W
  finish_start previous now s =
      let report = s.report in
      let table' : ProcessTable = elim report.failure [
        | none ↦ s.table
        | some e ↦ forget_unlaunched previous report.outcomes now s.table
      ] in
      let (saved, w') = save_table ports table' s.world in
      ((elim saved [ ok _ ↦ report | err e ↦ record report { unsaved = some e } ]), table', w')

  unfoldable pub start_apps :
      ProcessTable → List AppSpec → Text → W → Option (StartReport × ProcessTable × W)
  start_apps table specs logs_dir w = elim (accepted_order table specs) [
    | none ↦ none
    | some (err e) ↦ some (refused e, table, w)
    | some (ok order) ↦
        let (now, w') = ports.now_ms w in
        let (previous, table') = upsert_all specs now table in
        elim (start_each specs logs_dir order (record {
          table = table';
          report = record { outcomes = []; failure = none; unsaved = none; pending = [] };
          waiting = [];
          world = w';
        })) [ none ↦ none | some s ↦ some (finish_start previous now s) ]
  ]
