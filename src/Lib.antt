-- ===== src/Lib.antt =====
-- kom-operator: a Kubernetes operator that runs HTTP microservices behind a Traefik load balancer.
--
-- The operator watches `Microservice` objects. For each one it keeps a deployment, a service, routes
-- in the configuration of the load balancer, and a horizontal pod autoscaler; a finalizer makes sure
-- that the routes go before the object does.
--
-- Parts and files:
--   * `Main` (cmd/main.go) is the process from its parsed flags to the end of the manager, with
--     `SetupWithManager`. It makes the one load balancer and hands it to controller-runtime, which
--     runs its `Start` and calls `Reconcile`. `Main/Scheme` is the registration of the types
--     (api/v1alpha1/groupversion_info.go).
--   * `Controller` (internal/controller/microservice_controller.go). `Controller/Reconcile` is
--     `Reconcile` and `finalize`: it reads the object, registers or removes the finalizer, and then
--     creates what is missing (`create_resources`) or updates what changed (`update_resources`).
--     `Controller/Objects` is `getInstanceObjects`, `Controller/Changes` is `hasChanges`,
--     `Controller/Status` is `udpateStatus`, `Controller/Events` is `ignoreStatusUpdatePredicate`.
--   * `LoadBalancer` (process/loadbalancer.go) keeps the configuration of Traefik in a ConfigMap:
--     `load_config`, `write_config`, `reload_deployment`. `LoadBalancer/Deploy` is `Start` and what it
--     calls, `LoadBalancer/Init` is `InitLoadBalancer`. `LoadBalancer/Controller` is `CreateRouter`
--     and `RemoveRouter` (process/loadbalancer_controller.go), which the reconciler calls;
--     `LoadBalancer/Controller/Branches` lists the courses that they take, by what they are answered.
--   * `Routes` is what these two do to the maps of routers and services; `Traefik` has the types of
--     the configuration (process/traefik_config_types.go).
--   * `AutoScaling` (process/autoscaling_handler.go) is `Run`, which the reconciler calls for a
--     deployment, and `AutoScaling/Scaler` is `createScaler`.
--   * `Cluster` is the operator among the other clients of the API server. `Cluster/Steps` has the
--     steps of the system: one reconciliation, a change by somebody else, a new start of the process,
--     and `Reach` is any sequence of them. `Holds` is an invariant of the two copies of the
--     configuration, the server's and the operator's. `Cluster/Resting` says when a reconciliation
--     has nothing to do.
--   * `Util` (util/komutil.go, util/k8sutil.go) has the helpers on slices and `Equals`, `Util/Env` the
--     environment, `Util/Kinds` the kinds of a scheme, `Util/Files` the replacement in a file and
--     `Util/Print` `PrettyPrint`. `Api` is api/v1alpha1/microservice_types.go, `Version` is
--     version/version.go.
--   * `DeepCopy` (api/v1alpha1/zz_generated.deepcopy.go) is the generated copies. `DeepCopy/Memory` has
--     cells for the arrays of slices, the entries of maps and the structs of pointers, `DeepCopy/Types`
--     the types of the resource with addresses in place of these, `DeepCopy/Functions` the methods of
--     each type. A `Deep` says how a value is read through its addresses, and `Copied` what a copy is.
--   * `Kube` has the fields of Kubernetes objects that the source names; `Errors` the error values.
--   * `Dict`, `Text` and `Decimal` stand for Go's maps, `strings` and `strconv`.
--   * `Prelude` has the shared names, tests and lemmas; `Tests` the theorems at concrete inputs.
--
-- How code is modelled: `Exec p A` takes the state `Sys p` (the API server, the requests sent so far,
-- the load balancer of the process) to an outcome, a value, an error or a panic, and a state. What was
-- done before an error stays done. The server is a parameter: `Platform` has its calls, the YAML
-- library, the validator, quantities, the clock, and the environment, none of which is defined here. A
-- server's call may change the server's state in any way, which covers other clients. After a
-- successful `Get`, `Create` or `Update` the client writes the server's object over the caller's, so
-- the model goes on with the reply. `Exec/Keeps` has the rules for an invariant of such code, one for
-- each construct, and the modules named `Kept` apply them to a whole operation, whatever its requests
-- are answered. `Exec/Panics` has such rules for where code may panic.
--
-- What is relied on of other code, as hypotheses: `StoresConfigs` (`Unmarshal` reads what `Marshal`
-- wrote, and a ConfigMap is stored as sent), `ConfigStore` (reads give what is held, a write that
-- succeeds replaces it and one that fails stores all of it or nothing, other requests leave it alone;
-- a client that reads from a cache may be behind, and the properties with this hypothesis are about
-- reads that are not),
-- `NamesKept` (the server answers objects under the names that were asked for or sent, and setting
-- the owner keeps names), and `DeepCopies` (the `DeepCopyInto` of other packages makes deep copies). In a
-- step by somebody else the ConfigMap of the load balancer stays as it is.
--
-- The mutex of `CreateRouter` and `RemoveRouter` makes each of them one step for the other, and a
-- reconciliation is one step of the system. A Go map is an association list, and `range` runs through
-- it in the list's order. An `int32` is an integer of `Prelude/Ints`, and the conversion `int32(n)`
-- wraps. Loops are structural recursion, so there is no fuel; `strconv.Itoa` recurses on the order of
-- the numbers. A nil slice is told from an empty one where `reflect.DeepEqual` does. Values that the
-- source only copies (security contexts, resource lists, times) are texts.
--
-- Values are copied everywhere but in `DeepCopy`: the model's other parts share none, so that a copy is
-- the value itself.
--
-- Not modelled: the parsing of the command line and the logger (zap adds flags of its own to them), and
-- logging.
pub mod Prelude
pub mod Text
pub mod Decimal
pub mod Dict
pub mod Traefik
pub mod Kube
pub mod Api
pub mod Routes
pub mod Util
pub mod Errors
pub mod Version
pub mod Platform
pub mod Exec
pub mod AutoScaling
pub mod LoadBalancer
pub mod Controller
pub mod Cluster
pub mod Main
pub mod DeepCopy
pub mod Tests
