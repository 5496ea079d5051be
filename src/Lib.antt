-- ===== src/Lib.antt =====
-- The maintenance orchestrator: a Kubernetes operator that takes nodes through maintenance. A user
-- writes a MaintenanceRequest (which nodes, how, under which approvals); the controller plans batches
-- of nodes, asks for approvals, and then cordons, drains and uncordons (or replaces) the nodes batch
-- by batch, within the limits of a MaintenancePolicy. The parts modelled here, and where:
--
-- - Prelude: numbers, texts, lists and sorting that the other files share.
-- - Api: the types of api/v1alpha1 (shared_types.go, maintenancerequest_types.go,
--   maintenancepolicy_types.go). Api.Enums has the string constants, Api.Spec what users write,
--   Api.Status and Api.Request what the controller records.
-- - StateMachine: internal/statemachine/statemachine.go, the table of request phases.
-- - Approval: internal/approval/approval.go, the manual gates.
-- - Kube: internal/kube. Kube.Nodes and Kube.Pods classify objects (nodes.go, pods.go); Kube.Calls has
--   the calls to the API server (nodes.go, pods.go, eviction.go, machines.go); Kube.Cluster is the
--   world they are made to; Kube.Traces counts them.
--   Kube.Workloads resolves the workload and the disruption budget of a pod (pods.go, pdb.go), and
--   Kube.Capacity estimates the headroom (capacity.go).
-- - Policy: internal/policy/policy.go, the guardrails of a policy, with `Resolve` in Policy.Resolve.
-- - Planner: internal/planner/planner.go: `BuildBatches` (Planner.Batches), `Score` (Planner.Score) and
--   `Build` (Planner.Build).
-- - Preflight: internal/preflight/preflight.go: the checks of pods (Preflight.Pods), the others
--   (Preflight.Checks), `Run` (Preflight.Run) and what is done with the results (Preflight.Results).
-- - Executor: internal/executor/executor.go, the operations on one node.
-- - Controller: internal/controller. Controller.Drain and Controller.Replace have the cases of
--   `stepNode` of execute.go and Controller.Step the switch; Controller.Loop has the loop of
--   `reconcileExecuting` over the nodes, and Controller.Release what an aborted request does with
--   them; Controller.Nodes and Controller.NodeState the helpers, and Controller.Config the timeouts of
--   maintenancerequest_controller.go. Controller.Targets is targets.go. Controller.Phases has the
--   handlers of phases.go and `reconcileExecuting`, Controller.Finish the life-cycle helpers of
--   maintenancerequest_controller.go, and Controller.Reconcile its `Reconcile`; Controller.World is what
--   they are given. Controller.Reads and Controller.Stores have the proofs of what each part asks of
--   the API server. Controller.Policies is maintenancepolicy_controller.go.
-- - Settings: internal/config/config.go, the configuration: its defaults and its validation, and how
--   `Load` reads it from a file and the environment (Settings.Load). Controller.Delays has the delays
--   that follow.
-- - Window: internal/window/window.go, the cron expressions of maintenance windows.
-- - Samples: a concrete cluster and request, and each theorem applied to them.
--
-- `reconcile` reads the request and its policy and calls the handler of its phase. A validation resolves
-- the targets, runs the preflight checks and builds a plan; an execution steps the nodes with
-- `step_batch`, which calls `step_node` for each node of the current batch, which calls the executor,
-- which calls the API server. Every path ends with at most one update of the status.
--
-- How the code is read. An int32 or a duration is an integer ℤ, wrapped (`int32`, `int64`) where the
-- code's arithmetic may leave the word; a counter that only counts elements of a list, or indexes
-- one, is an ℕ; a time is an ℕ of nanoseconds. A Go string type with constants is a data type with
-- a constructor for each constant and, where other texts may occur, `unset` for the empty text and
-- `other` for any further one. A map with text keys is an association list, a pointer that may be nil
-- an Option. A method that changes a status in place returns the changed status; `stepNode` returns
-- the changed node and the changed in-flight counter beside its error, since the controller stores
-- them on errors too.
--
-- The API server, the clock, the audit log and the metrics are not code of the repository. They are
-- the parameter `Env` of Kube.Cluster, whose answers are functions of all the calls made before, so
-- that other clients and failures at any point are included; a program extends the trace of calls.
-- Audit records and metrics are calls without an answer, kept with the labels that matter.
--
-- Library functions are parameters too (`World` of Controller.World): the time zones, the arithmetic
-- of resource quantities, label selectors, the update of a condition and the texts of errors; and
-- `Sources` of Settings.Load: the YAML parser and time.ParseDuration, which computes in floating point.
-- Of an audit record the action and the node are kept; of a log line nothing.
--
-- Loops are recursion on the list or the number of turns that they walk. Two run on fuel:
-- `chunk_loop` on one unit for each name, which Planner.Chunks proves to be enough, and `range_values`
-- on 128 units for a range of at most 60 values, which Window.Ranges proves to be enough for every
-- step that does not wrap.
--
-- Not modelled, being input and output, wiring or generated: the audit log, the metrics registry,
-- logging, the web dashboard, the deep copies and cmd.
pub mod Prelude
pub mod Api
pub mod StateMachine
pub mod Approval
pub mod Kube
pub mod Policy
pub mod Planner
pub mod Executor
pub mod Controller
pub mod Preflight
pub mod Settings
pub mod Window
pub mod Samples
