-- ===== src/Lib.antt =====
-- A model of the gateway that routes chat completions between local models and an external
-- provider, with the theorems that its parts are built to meet. Paths are from the repository's
-- root.
--
-- How the parts meet: a registry (Registry) is loaded and validated once. The router (Routing)
-- picks a model and an adapter for a request from the registry's profiles, from the live load
-- (Engine) and from the canary monitor (Canary). The decision is dispatched (Dispatch) to the local
-- engine, behind a circuit breaker (Resilience), or to a provider outside. Slots and quotas
-- (Admission) decide whether a request is let in, and the caches (Caching) whether it needs an
-- engine at all. A rollout (Rollout) acts on what the canary rule says. The gateway (Gateway) is
-- the handler of a chat completion, which calls all of these in turn, and the state they share
-- while requests interleave. Beside the serving path, governance (Governance) brings a store of
-- recorded revisions in step with the registry, and the scan (Artifacts) says which artifacts may
-- be released: an adapter that was trained from a recipe (Recipes) enters the catalog only if it
-- passes.
--
--   Prelude      Python's dict and OrderedDict, sorting, floats behind their order, exceptions as values
--   Models       src/llm_router/models.py: requests, profiles, decisions, and the enumerations
--   Registry     src/llm_router/registry.py: records, validators, queries, verdicts on variants
--   Engine       src/llm_router/load.py and, of src/llm_router/engine_stats.py, the cold-start tracker
--   Canary       src/llm_router/canary.py: plans, the rule `evaluate`, the arms, the monitor
--   Routing      src/llm_router/routing.py: `Router.select` and `Router._select_adapter`
--   Resilience   src/llm_router/resilience.py: `CircuitBreaker` and `ResilientBackend`
--   Caching      src/llm_router/caching.py: the four caches, keys and eligibility
--   Admission    src/llm_router/admission.py, and the quota of src/llm_router/redis_state.py
--   Dispatch     src/llm_router/backends.py: `DispatchingBackend` and the classing of engine errors
--   Rollout      src/llm_router/rollout.py: the step after a verdict, and the exit code
--   Credentials  src/llm_router/credentials.py: `TokenVerifier`, `StaticKeys`, `RemoteKeys`; `authenticate`
--                of src/llm_router/app.py
--   Governance   src/llm_router/governance.py: `plan`, `apply`, `sync`, `verify` and `InMemoryStore`
--   Artifacts    src/llm_router/artifact_scan.py: `scan` and its checks of files
--   Recipes      src/llm_router/adapters.py: recipes, `check_recipes` and `catalog_entry`
--   Gateway      src/llm_router/app.py: `_complete`, `_stream_completion`, `/readyz`, `/metrics` and
--                shutdown, and the steps of concurrent requests
--
-- How code is read: an object is a record, a method a function that returns the record after the
-- call with its result. A method that may raise returns a Result, and an early return is a branch.
-- A clock is an argument, one reading for each time that the call reads it. A `float` is a type `F`
-- with the operations of the interface Float; the theorems that compare use the laws of a total
-- order (IsOrdered), which Python's floats satisfy away from NaN, and Tests applies them to signed
-- thousandths. A message that the code builds is a constructor with the values that it prints, or
-- the text itself where it is a result: the drift of a store and the problems of recipes. The
-- handler runs on one event loop, so other requests run only while it waits for a slot or an
-- engine: it is cut there into stretches, each a function on the shared state, and a step of the
-- gateway is one stretch of one request. When a client leaves a stream, the engine's generator is
-- closed by the interpreter just after; the model does both at once. A frozenset is a list of its
-- members. A loop is a recursion on its list, so no function needs fuel but `decimal`, the digits
-- of a number, which takes the number itself: one division by ten for each digit is fewer.
--
-- Parameters, because their code is not in the repository: SHA-256, lower-casing and splitting of
-- text, UTF-8, the text of a float, the decoding of a signed token and of a key, the JSON of a file
-- (known by what it says), the opcodes of a pickle stream and the members of an archive (functions of
-- the bytes), the engine behind a call (known by how the call ends), and the runner of a command.
--
-- Not modelled: of src/llm_router/app.py the listings and the text of the responses; the
-- classifier's training, the MLflow store, evaluation, the training of adapters, topology and
-- chart; metrics and tracing, HTTP clients, files and argument parsing, which are input and output.
-- Of the bounds that pydantic puts on single fields only the latency bound of a canary's criteria is
-- checked in the model, since the catalog's own validators do not imply it.
mod Prelude
pub mod Models
pub mod Registry
pub mod Engine
pub mod Canary
pub mod Routing
pub mod Resilience
pub mod Caching
pub mod Admission
pub mod Dispatch
pub mod Rollout
pub mod Credentials
pub mod Gateway
pub mod Governance
pub mod Artifacts
pub mod Recipes
mod Tests
