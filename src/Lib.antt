-- ===== src/Lib.antt =====
-- The compute service of the repository: a Kubernetes controller for clusters of servers, one for
-- single instances, and the API server that writes the custom resources which the two read. The
-- controllers bring the servers of the region service in line with the resources; the API server
-- converts between resources and API objects and stores changes, evictions among them.
--
-- Which file models which part:
-- - Api, Api/Accessors: pkg/apis/unikorn/v1alpha1/types.go and helpers.go, the custom resources. A
--   pointer is an `Option`, a map an association list (Base/Dict).
-- - Status and its children: pkg/provisioners/managers/cluster/util/server.go, the status of a
--   cluster from its servers.
-- - Cluster/Client: region.go of pkg/provisioners/managers/cluster, one function for each call.
--   Cluster/Tags: util.go. Cluster/ServerSet: the sets and requests of server.go. Cluster/Reconcile:
--   `reconcileServers` of server.go, one function for each of its loops. Cluster/SecurityGroups:
--   securitygroup.go. Cluster/Provision: provisioner.go.
-- - Instance/Generate, Instance/Provision and Instance/Client: provisioner.go and region.go of
--   pkg/provisioners/managers/instance.
-- - OpenApi: the types of pkg/openapi/types.go that the handlers use.
-- - Handler/Client, Handler/Services: pkg/server/handler/region/region.go and
--   pkg/server/handler/util/util.go, what handlers ask of the region and identity services.
-- - Handler/Images, Handler/Convert, Handler/Generate, Handler/Evict, Handler/Metadata: the parts of
--   conversion.go and client.go of pkg/server/handler/cluster that work on pools, and evictions.
--   Handler/Clusters: the rest of both, so creation, update and listing of whole clusters.
--   Handler/ClustersV2: client_v2.go, the same cluster under version 2 of the API.
-- - Handler/Instances: client.go of pkg/server/handler/instance. Its Networking, Validation and Tags
--   have lemmas on checks; Client has the reads, listings, deletion, power actions, consoles and
--   snapshots, Write has creation and update with their sagas.
-- - Handler/Routes: handler.go and handler_v2.go of pkg/server/handler, one function for each route:
--   access check, body, call of a handler, response. Routes/Guards has the operations of the
--   `ServerInterface` of pkg/openapi/router.go and the route of each, and what a caller must be
--   allowed for it.
-- - Handler/Instances/Quota: an abstract ledger of the quota of an instance, which is what the writes
--   of a history that were accepted leave. Its
--   children go from reads over checks and sagas to operations and sequences of operations.
-- - Handler/Runs: what holds of a history after each step of a handler.
-- - External and its children: what the code takes from the core, region and identity repositories.
-- - Base and its children: shared lists, texts, maps, integers, results and state.
-- - Examples: test data, runs and instances of the theorems.
-- The children of a module hold its lemmas and theorems, and are named for what they are about: of
-- Cluster/Reconcile, for instance, Deletions (which servers go), ScaleDown, ScaleUp, Sizes, Settled (a
-- reconcile with nothing to do) and Convergence (how that state is reached).
--
-- How code becomes definitions. A Go function with an error is a function into `Result` of
-- Base/Result, which also has panics, such as the dereference of a nil pointer or an index out of
-- range. A method of a provisioner or a handler is a `Comp` of Base/State: it takes a state and
-- returns a result and a state, and changes that were made before an error stay made. The state of a
-- cluster run (Cluster/State) has the provisioner's cluster, the server set that `Provision` holds
-- for its deferred status update, the requests sent, newest first, and how many random suffixes were
-- drawn. The region service, the Kubernetes API and the identity service are an environment whose
-- answer to a request may be any function of the requests up to it. The handlers' only state is the
-- history of their requests (External/Catalog), and what Kubernetes stores is read off it. So what is
-- stated for every environment holds for any answers and any failures of these services, and where
-- services must behave, that is a hypothesis. Status codes are compared as the code compares them.
--
-- Choices of the models.
-- - `range` over a Go map visits it in an arbitrary order. The models visit an association list in
--   its order; what holds for every list holds for every order. The same goes for `maps.Values` in
--   `selectDeletionCandidate` and for sets of names.
-- - The scale down loop has fuel, one more than the servers of the pool. Each round removes one
--   server, so that the loop always ends before the fuel does. All other loops run over lists or a
--   number.
-- - `rand.String` is any sequence of texts. That suffixes do not repeat is only relied on where the
--   convergence of the controller is stated, and there only up to a limit of suffixes.
-- - `slices.SortFunc` is insertion sort (Base/Sort). It is stable, and the results hold of any order
--   of equal names, which do not occur among pools.
-- - `int` is ℤ (Base/Int) where a value may be negative, and ℕ where it counts; pool sizes are far
--   from the 64-bit limits.
-- - An `IPv4Prefix` is the text that it prints. `net.ParseCIDR` is a parameter, which may refuse any
--   text. Where it matters a hypothesis says of the prefixes that a resource holds, and of no other,
--   that it reads them back from what they print as.
-- - `UpdateCondition` and `GetCondition` of the core repository are the parameter `Conditions`; the
--   hypothesis `AreLawful` says that the second reads what the first wrote, type by type.
-- - An enumeration is a data type; the code's answer to a text that is none of the values, which the
--   API schema and the custom resource definition keep out, has no counterpart.
-- - The pool that a server set shares with the server set of the status update by pointers: a
--   deletion writes the status through the pointer, which `mark_deprovisioning` does; an updated
--   server replaces the pointer in the pool's set only.
-- - `cli.Update` answers with the object that it was sent. `p.cluster.Spec.WorkloadPools` is a
--   pointer that the version 1 API always sets, and is modelled as set.
-- - `Replicas` of a status only counts up from zero.
-- - `saga.Run` of the core repository is a parameter of the environment, with the hypothesis `IsSaga`
--   where its behaviour matters: the actions run in order, and when one fails the compensations of
--   those before it run in reverse order, and the error stays.
-- - The builders of object metadata, `conversion.UpdateObjectMetadata` with its mutator and
--   `common.IdentityMetadataMutator` are parameters; the hypothesis `AreBuilders` says which labels,
--   names and tags the builders set.
-- - The change of a request's principal by `util.InjectUserPrincipal` is an event of the history.
--   Random names are numbered by the length of the history, so that two are different.
-- - Metadata that a client reads has a name and tags, and for a version 1 cluster the project. User
--   data that is empty is stored as none. The version 2 cluster without pools has the empty list of
--   pools.
-- - A write that Kubernetes or the identity service refuses has a number for its error; whether it
--   says that the object is not there, as `kerrors.IsNotFound` tells, is a parameter.
-- - Access to a resource is a parameter that says for a resource and an operation yes, or an error.
--
-- Not modelled: logging; the generated decoding of paths, queries and bodies, the generated client and
-- deep copies, which hold no decision of the program; the middleware of the server and how errors are
-- written, which the core repository does; how access rights are computed, which the identity
-- repository does, and that some requests are sent on behalf of the user; the options of the HTTP
-- clients; the manager factories, the monitor, whose list of checkers is empty, and the entry points.
pub mod Base
pub mod External
pub mod Api
pub mod OpenApi
pub mod Status
pub mod Cluster
pub mod Instance
pub mod Handler
pub mod Examples
