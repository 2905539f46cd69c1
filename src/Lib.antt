-- ===== src/Lib.antt =====
-- A model of the node disruption controller, a Kubernetes operator that decides when nodes may be
-- disrupted. A NodeDisruption asks for some nodes; ApplicationDisruptionBudgets and
-- NodeDisruptionBudgets say how many disruptions the applications and the pools of nodes bear. The
-- controller of the disruptions (internal/controller/nodedisruption_controller.go) reads all budgets,
-- synchronises them, asks each one concerned, calls the hooks of the applications, and grants,
-- rejects or retries. The controllers of the budgets keep their statuses.
--
-- The parts and their files:
--   Api (Types, Objects, Slice, Equality, StatusEquality): the resources of api/v1alpha1, a record for
--     each struct, and `reflect.DeepEqual` on the statuses. A nil slice and an empty one differ.
--   Client, Client.Monad: what the program calls and does not implement. `Env` has an operation for
--     each call of the API server, of the selector machinery, of HTTP, of the clock and of the
--     Prometheus registry; `World` is the state of all of them. A call takes a world and gives a
--     result and another world, so that nothing is assumed of what others do between two calls. Go's
--     `(value, error)` is `Result`, and a method that may fail is an `Action`.
--   NodeSet, NodeSet.Sorting, NodeSet.Laws: the sets of pkg/resolver/resolver.go over a set library
--     that is a parameter; `IsLawful` is what its documentation says.
--   Resolver (Selectors, Volumes, Laws): the rest of pkg/resolver/resolver.go.
--   Metrics (Updates, Budgets, Labels): internal/controller/metrics.go, and the updates that
--     the controllers make, as lists in the order in which they are made.
--   AppManager: the client of internal/appmgrcli/disruption, the readers of the replies and the requests.
--     The HTTP transport is an operation of `Env`. AppManager.Responses has the response values and
--     their methods (*_responses.go), AppManager.Parameters the parameters of requests
--     (*_parameters.go), AppManager.Body the validation of internal/appmgr/disruption.go; Laws,
--     Replies, Refused and Settings are proofs.
--   DeepCopy: the generated copies of api/v1alpha1/zz_generated.deepcopy.go. Heap has the arrays that
--     slices refer to, Objects the resources with references for slices, Copies the methods, one
--     definition for each type, and Slices what they do with a slice. Parts, Lists, Readings,
--     Resources, Depth and Independence are proofs.
--   Budget: the interface of internal/controller/budget.go as a data type of its two implementations,
--     Budget.Application with Budget.Hooks (applicationdisruptionbudget_controller.go) and Budget.Pool
--     (nodedisruptionbudget_controller.go), and `GetAllBudgetsInSync`. The loop of `ResolveDisruption`
--     that both have is Budget.Disruptions.
--   Disruption: nodedisruption_controller.go. Settings (configuration, deadlines and dates),
--     Constraints (`ValidateWithInternalConstraints`), Validation (`ValidateWithBudgetConstraints` and
--     the hook checks), Transition (`tryTransitionToGranted`, `TryTransitionState`, `Sync`),
--     Termination (`handleFinalizer`, `terminateAllImpactedBudgets`), and `Reconcile` in Disruption
--     itself. The other files of the folder are proofs, named for what they are about.
--   Controllers: the reconcilers of the two kinds of budget (Application, Pool), the events that wake
--     them (Watch), and cmd/main.go: the lists of disruption types and their check (Startup), and `main`
--     from the parsed flags, over a manager that is a parameter (Main). Types, Splitting, Events and
--     Running are proofs.
--   Cluster: the reconciler of disruptions on a cluster whose disruptions change one at a time, with one
--     budget of an application looked at. Reads says what the reads of a reconciliation show, Steps
--     has the changes (reconciliations, creations, deletions, edits), and Ledger the contract: a
--     counter of holders that grows only within its maximum. Fixed in it are the nodes of selectors,
--     the nodes that the budget selects and the budget's spec. Disruptions of types that the budget
--     does not support are counted by the code and checked by none of its rules, so the steps are
--     reconciliations of the types that it supports. A granted disruption whose node selector is
--     edited stays granted with no new check, so the edits of a granted one keep the selector.
--   Prelude: lists, texts, Go's `int` (two's complement of 64 bits) and `float64` on integers and on the seconds of a duration.
--   Tests: a cluster that is a value, runs of the model on it, and each theorem at concrete data.
--
-- Conventions. A method that changes its receiver returns the changed value. A time is a number of
-- nanoseconds since Go's zero time, 0 being that time, so that two times are equal where they are the
-- same instant; `reflect.DeepEqual` compares representations, and a time just taken from the clock
-- differs for it from a stored one of the same instant. A duration is an integer of nanoseconds. The
-- client of the hooks that a resolver keeps is made again for each call, from the same URL. In
-- DeepCopy a slice stands for the whole of its array. A loop is structural recursion on the list that
-- it ranges over, so there is no fuel but for the digits of a number (Prelude.Decimal, a digit for
-- each step), for the bits that a float cuts off (at most 11, for a magnitude of at most 64 bits) and
-- for the binary digits of a duration's seconds (34, of at most 2 ^ 63 nanoseconds). Where the code
-- calls a method of a nil interface, which panics, the model gives `none` (Controllers.Watch).
--
-- Not modelled: the generated facade of the client that the program does not use, the registration of
-- types and watches, the parsing of flags, and log lines; the client's constructors with
-- authentication; the HTTP headers of requests, and that a body is not closed; what a panic in a hook
-- leaves counted; the concurrency of reconciliations, beyond that the world may change at each call.
pub mod Prelude
pub mod Api
pub mod NodeSet
pub mod Metrics
pub mod Client
pub mod Resolver
pub mod AppManager
pub mod Budget
pub mod Disruption
pub mod Controllers
pub mod Cluster
mod Tests
pub mod DeepCopy
