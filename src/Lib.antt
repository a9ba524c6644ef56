-- ===== src/Lib.antt =====
-- The core logic of Monaco, the Dynatrace configuration-as-code tool: how the parameters of a
-- configuration are read, sorted and resolved, how the configurations of a dependency graph are
-- deployed, how account resources are loaded and validated, how a delete file is read, how
-- the dependency graph is built and validated, and how identifiers are derived.
--
-- A configuration (pkg/config) has a coordinate and named parameters. Its parameters may refer to one
-- another and to properties of other configurations. Before it is deployed, its parameters are
-- sorted by their references (pkg/config/sort.go, on internal/topologysort) and resolved in that
-- order (pkg/config/resolve.go) against the entities that were deployed before
-- (pkg/config/entities). `deployGraph` (pkg/deploy/deploy.go) deploys round by round all nodes of the
-- dependency graph that have no incoming edge, and removes what hangs on a node that was not deployed.
--
-- Base: shared notation; lists, texts, maps with text keys, sorting by key, and Go's decoded values.
-- TopologySort: `TopologySort` with its helpers. TopologySort/Defs holds the definitions; the queue,
--   the sorted list, the matrix and the in-degrees are the fields of `State`. Counts, Relax, Invariant
--   and Stopped carry the proofs; Termination, Order and Errors hold the results.
-- Config/Coordinate, Config/Parameter, Config/Model: the data of pkg/config.
-- Config/Reference, Config/Serde, Config/FileParameter: `parse...Parameter` and `write...Parameter`;
--   Config/ListRoundTrip: a list parameter through YAML and `ToStringMap` of internal/maps.
-- Config/Entities, Config/Properties: `EntityMap` as a list of entities, and `ResolvePropValue`.
-- Config/Sort, Picking, SortOrder, SortTotal: `getSortedParameters`.
-- Config/Resolve, Config/Resolved: `ResolveValue` of each type, `validateParameterReferences`,
--   `resolveValues` and `ResolveParameterValues`.
-- Deploy/Graph: the directed graph of gonum as an interface of operations and their documented laws,
--   and `Roots`. Deploy/Finite fills the interface for finitely many nodes.
-- Deploy/Node, Deploy/Loop: `deployConfig`, `deployNode`, `removeChildren`, `deployGraph`. The state is
--   the graph, the resolved entities, the reports in their order, the number of calls and of errors.
-- Deploy/Removal, RemoveChildren, Invariant, Handled, OneNode, Rounds, Schedule, Deployed: the proofs.
-- Account/Types, Account/Resources: the account resources of a file and in memory.
-- Account/Validate, Valid: `validateFile`. Account/References, Closed: `validateReferences`.
-- Account/Transform, Transformed, Load, NoPanic, Loaded, Merge: transform.go,
--   `addResourcesFromFile` and `addProjectResources`.
-- Project: a project of pkg/project/project.go.
-- ConfigGraph: pkg/graph/graph.go. ConfigGraph/Builder is the interface of gonum's graph, Defs holds
--   `buildDependencyGraph`, `New` and `SortConfigs`; a node's id is the position of its configuration
--   among those of the environment. Nodes, Last, Edges, Positions and Built carry the proof about the graph,
--   Order, Sorted and Deployed what a topological order of it gives; Finite fills the interface.
-- Validation: pkg/deploy/internal. Setting, SameScope: `InsertAfterSameScopeValidator`; Classic,
--   UniqueNames: the validators of classic APIs; Validate, Accepted: `Validate` on all projects.
-- Ids: internal/idutils. NumericId, VarInt, Zigzag, on the digits of Bits: numeric ids of words of 64
--   bits; BucketName, Sanitized: bucket names; ExternalId: external ids.
-- Persistence: pkg/config/internal/persistence/type_definition.go. TypeDefinition: `UnmarshalYAML` and
--   `MarshalYAML`; RoundTrip relates them; Checked: `Validate` and `GetApiType`.
-- ProjectLoader: pkg/project/project_loader.go. Defs holds the checks on the configurations of a project
--   and the maps made of them, Identifiers and Dependencies their proofs; Load holds `LoadProjects`,
--   whose variables are the fields of `Loading`, Termination, Reached and Closed the proofs; LoadProject holds
--   `loadProject`, Marks, ConfigMap, Filed and Loaded the proofs about the project that it returns.
-- Delete/Loader, Entries, Grouped: pkg/delete/loader.go. Apis/Filters: the filters of pkg/api/apis.go.
--
-- A Go map is a list of its entries in the order of one iteration. A panic is `none` or a
-- constructor of its own. Locks make the operations that they guard single steps. The goroutines of
-- one round of `deployGraph` are run one after the other in an order that is a parameter: each root
-- of a round touches only the graph below it and the entities, both of them locked, and no root
-- refers to another. Finer interleavings of two calls of `deployNode` are not modelled.
--
-- Fuel: a node enters the queue of `topology_sort` as a leaf or when an edge is removed, so that one
-- round more than n + n * n is enough for n nodes. `resolve_prop_value` runs on the
-- length of the key, which each step shortens.
-- `load_projects` takes a name from its list in each round, and only a project that was not seen
-- before adds names: `enough_fuel` counts the first names and what each defined project can add.
-- `deploy_graph` takes the depth of the recursion of `removeChildren` and the number of rounds as
-- arguments; on a graph whose nodes have ranks below a bound that rise along the edges, fuel of that
-- bound and more rounds than it are enough.
--
-- Parameters of the model: gonum's graph, the environment variables, the JSON escaping of a text, the
-- execution and rendering of templates, the deployables and their answers, mapstructure, the
-- YAML library, the loading of a project's configuration files, the table of the APIs, gonum's
-- topological sort, go-cmp, base 64, the parsing of a UUID and the tables for lower case.
--
-- Not modelled: the clients, the command line, downloads, manifests, the loaders and writers of
-- whole configuration files, the connected components of the dependency graph, and the
-- texts of most messages; and YAML maps with keys that are not texts.
mod Base
pub mod TopologySort
pub mod Config
pub mod Deploy
pub mod Account
pub mod Delete
pub mod Apis
pub mod Project
pub mod ConfigGraph
pub mod Ids
pub mod Validation
pub mod Persistence
pub mod ProjectLoader
