-- ===== src/Lib.antt =====
-- Verification of namespace-cost-governor, a Kubernetes operator that keeps the cost of a namespace
-- within a budget, and of its kubectl plugin.
--
-- The operator reconciles NamespaceBudget objects once a minute: it asks Prometheus for the use of
-- CPU and memory, adds it to running totals, turns their share of the budget into a phase, scales
-- idle Deployments to 0 while the budget is exceeded and all Deployments while it is suspended,
-- writes the status, notifies Slack, and writes a report of each month. A scaled Deployment carries
-- four annotations, from which it is restored when the budget is deleted or by the plugin.
--
-- - Base: results and errors, actions on the world (`Exec`), maps, integers, and the rules for
--   what an action keeps (Base/Keeps).
-- - Go: floats as a record of operations, time in nanoseconds (a parsed time with its
--   offset), and of the standard library what the
--   code calls (Strconv, Strings).
-- - Api: api/v1alpha1. Kubernetes objects keep the fields that the program reads or writes.
-- - DeepCopy: api/v1alpha1/zz_generated.deepcopy.go. Structs are the types with what stands behind
--   their slices and pointers as addresses of a Heap; Plain, Budget, Report and Object are the
--   functions, in Allocating, an action on the heap; Values is what a struct in memory reads as.
--   Foreign are the deep copies of the Kubernetes types. Copied, Parts and Fields are the rules for
--   a copy whose cells are all new.
-- - Outside: the Kubernetes API, HTTP, the clock, the order of map ranges and the third-party
--   functions, as one record of operations that every effectful definition takes. Outside/Laws
--   says what the code relies on: reads are up to date and change nothing, a patch changes its own
--   object alone, a failing patch may have taken effect, a list is complete, a status update
--   is stored, and a retry repeats its function a finite number of times. Nobody else writes while
--   an operation runs. Outside/Healthy is a server that answers
--   reads and admissible patches of Deployments, Outside/Sorting and Ranging say
--   what is relied on in sort.Slice and in a range over a map, Outside/Stale what a patch does to
--   an object that changed meanwhile. Outside/Alike compares two actions by what they return and
--   by the cluster that they leave, Outside/Stored a status with what the server keeps of it.
-- - Metrics: internal/metrics. `Prometheus.do_request` is the request and its response;
--   Prometheus/Samples says when a pair of a series says a sample.
-- - Idle: internal/idle. `Detector.detect_idle` is DetectIdle;
--   Detector/Decided relates its list to the samples and the cluster.
-- - Actions: internal/actions. `ScaleDown.scale_down` and `restore`, `Suspend.suspend_all`,
--   `Notify.send_slack`. Life is the transition diagram of a Deployment (marked, scaled to 0, set
--   back, unmarked) with what its steps keep.
-- - Report: internal/report. `Generate.generate` is Generate.
-- - Controller: internal/controller/namespacebudget_controller.go. `Reconcile.reconcile` is
--   Reconcile; the steps that its comments number are in Month, Lifecycle, Accounting and Enforce,
--   and its pure helpers in Phase, Conditions and IdleStatus. CostReports is the empty reconciler
--   of internal/controller/costreport_controller.go.
-- - Cli: cmd/kubectl-budget, its commands restore, status and report. Console is the terminal, the
--   table writer and client.go; Console/Shown says which texts reach the terminal.
-- - Operator: cmd/main.go, from the parsed flags to the start of the manager.
-- - History: sequences of reconciles and restore commands, as a relation between worlds.
-- - Examples: a world in memory that meets the laws, and the theorems at concrete data.
--
-- Loops are structural recursion over the lists that they range over. The only fuel is in
-- `Outside.runs`, the rounds of RetryOnConflict, whose number is left open.
--
-- Not modelled: log lines, contexts and timeouts, the parsing of command lines, the registration of
-- commands and types, the widths of printed columns, and the quoting of a text
-- inside an error message.
-- Floats are used through their operations only, and no theorem is about the value of a price or a
-- total. Runs of the program follow each other, but for a restore command between the patches of a
-- scale-down (Cli/Restore/Race); no other runs that interleave are modelled.
pub mod Base
pub mod Go
pub mod Api
pub mod DeepCopy
pub mod Metrics
pub mod Outside
pub mod Idle
pub mod Actions
pub mod Report
pub mod Controller
pub mod Cli
pub mod Operator
pub mod History
pub mod Examples
