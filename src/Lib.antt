-- ===== src/Lib.antt =====
-- kink: the controllers that run Kubernetes control planes in the pods of another Kubernetes cluster,
-- under the Cluster API.
--
-- The program is three controllers that share no state but the API server's. main.go registers them
-- with one manager and starts it. Each is a function `Reconcile` that reads a few objects, makes write
-- calls and returns whether it wants another round.
--   * KinkControlPlane: once the cluster's infrastructure is ready and its endpoint is set, it creates
--     the secrets of the certificates and the kubeconfig, scales the KinkMachine objects to the number
--     of replicas, and counts the ready ones in its status.
--   * KinkMachine: it creates the four pods of a control plane and etcd's service, and reports itself
--     ready when its pods run.
--   * KinkCluster: it marks the infrastructure as ready.
--
-- Which file models what:
--   * Base: what the program takes from Go. Base/Effects has errors and actions: an action takes the
--     world to a result and a new world, where the result is a value, an error, a panic or the end of
--     the rounds that a loop was given. A Go function `f(...) error` is an action, `if err := ...` is
--     `attempt`, and the dereference of a pointer is `or_panic`. Base/Int has `int32` with its wrap.
--   * Api: the types of apis/controlplane/v1beta1 and apis/infrastructure/v1beta1, and the fields
--     that the controllers use of the Cluster API's and of Kubernetes' objects. A pointer is an
--     `Option`, a map an association list.
--   * Platform: the constants and pure functions of the libraries, one record that is a parameter.
--   * Client: the API server behind `client.Client`, also a parameter: a type of states and one
--     function for each call, which may answer and fail as it likes. `World` pairs its state with the
--     list of the write calls made so far, which is what the theorems on effects speak of. The name
--     generator and the order of a `range` over a map are part of it. Client/Keeps says what a server
--     promises that keeps the machines it is given, as an interface with an abstract list of machines.
--   * Reconcile: the result of a round.
--   * ControlPlane: controllers/controlplane/kinkcontrolplane_controller.go. Scale is
--     `lookupOrCreateMachines`, Status `updateKinkCtlPlaneStatus`, Watch `ClusterToKinkCtrlPlane` and
--     Controller `Reconcile`. ControlPlane/Certs is controllers/controlplane/secrets: Catalogue has
--     `GetCerts` and the certificates, AltNames `getAPIServerAltNames`, Tree `AsMap` and `CertTree`,
--     Secrets the builders and the creation of the secrets, and Manager `CreateTree` and mgr.go.
--     Controller/Frame names the calls that a round is allowed to make.
--   * Manager: main.go, as commands to the controller runtime, which is a parameter. Types has the groups
--     of types that `init` adds to the scheme, Registrations the `SetupWithManager` of each controller.
--   * System: the running program, a relation whose steps are rounds of the three controllers and
--     changes from elsewhere.
--   * DeepCopy: the generated functions of apis. Structs has the types of both versions as they lie in
--     memory, where a pointer is an address; Memory and Shapes say what a memory is and what a value in
--     it stands for; Copies has the idioms of the generated code, and Parts puts them together field
--     by field. Infrastructure, ControlPlane and AlphaControlPlane hold the functions of a group, with
--     what its values stand for in Shapes below each, and AlphaInfrastructure those of the fourth
--     file, whose text is that of v1beta1. A `DeepCopyInto` returns what it writes to `*out`.
--   * Infrastructure: controllers/infrastructure. ClusterController is kinkcluster_controller.go, Role
--     util.go, Templates the templates directory; Machine is kinkmachine_controller.go, where Scan has
--     the loops over the listed objects, Setup `lookupOrSetupPods`, `lookupOrSetupServices` and
--     `lookupOrSetupControlPlane`, Status `updateMachineStatus` and Controller `Reconcile`.
--     Machine/Frame names the calls that a round is allowed to make.
--   * Tests: a server in memory, on which the theorems are applied to a small cluster.
-- The modules below these hold lemmas.
--
-- Loops over lists are structural recursions. The two loops of `lookupOrCreateMachines` run on an
-- index that is converted to `int32`; they are given 2 ^ 32 rounds, as many as an `int32` has values,
-- after which the index would be where it was. This is enough for lists of any length.
--
-- A round is a function of the server's state, which stands for all that may happen in the cluster:
-- what others do between two calls of a round is in the server's answers. So the rounds of a run follow
-- one another, and a round that runs beside another one sees it as a change of the server.
--
-- Not modelled: log lines, contexts, the parsing of the command line, which hands over the flags, and
-- the queues of the controller runtime. The controllers' own view of an object, in Api, leaves out its
-- type information and its conditions, which they leave alone. The cryptography, the PEM encoders,
-- kubeadm's address functions, the writer of the kubeconfig and the deep copies of the libraries'
-- structs are parameters.
pub mod Base
pub mod Api
pub mod Platform
pub mod Client
pub mod Reconcile
pub mod Infrastructure
pub mod ControlPlane
pub mod DeepCopy
pub mod Manager
pub mod System
mod Tests
