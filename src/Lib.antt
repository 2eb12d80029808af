-- ===== src/Lib.antt =====
-- Harbor Transfer Portal: a portal that carries container images and Helm charts between Harbor
-- registries that have no network between them. A portal in SOURCE mode exports signed bundles,
-- one in TARGET mode imports them. This library models the core of the backend, backend/app.
--
-- Parts, and how they interact
-- - Domain: the statuses of backend/app/domain/bundle.py and the transition tables of
--   backend/app/domain/operations.py. Domain.Transitions has EXPORT_TRANSITIONS,
--   IMPORT_TRANSITIONS and validate_transition; Domain.Transitions.Lifecycle describes the same
--   protocol without the tables.
-- - Manager: backend/app/services/operation_manager.py over the tables of
--   backend/app/db/models.py. Every transaction of OperationManager and OperationContext is a
--   function on Db, the table of operations with their artifacts and the next keys. It checks
--   its transitions with Domain. Manager.Model has the rows, Manager.Context the calls that a
--   worker makes, Manager.Service creation, claims, cancellation and failure, Manager.Recovery
--   the recovery at startup, Manager.Workers the run of a worker and its ends. Manager.System
--   makes all of them the steps of one system. The writes of
--   backend/app/services/import_retry.py and of the orchestrators, which go past the manager,
--   are no steps of it.
-- - Runtime: backend/app/services/runtime_mode.py and
--   backend/app/services/correlated_operation_manager.py. Runtime.Mode reads the mode,
--   Runtime.Switching has the guard and the switches, which ask the table of Manager for
--   unfinished operations, and Runtime.Starts creates operations and starts workers under the
--   guard. Runtime.Barrier makes these and the steps of Manager the steps of one portal.
-- - Login: backend/app/auth/rate_limit.py (Login.Limiter, Login.Attempts), and the login of
--   backend/app/api/auth.py.
-- - Policy: backend/app/services/transfer_policy.py over the settings rows of
--   backend/app/db/repositories.py. Policy.Fields has the fields and their bounds,
--   Policy.Transfer the service.
-- - Retention: the cleanup of backend/app/services/storage_retention.py. Retention.Keys checks
--   a storage key, Retention.Cleanup is the loop over the keys of the import staging, on
--   directories as lists of named children, Retention.Deliveries the removal of old exports,
--   Retention.Workspaces that of extraction workspaces, and Retention.Report the whole.
-- - Bundle: the verification of a signed bundle by
--   backend/app/services/bundle_package_service.py and backend/app/domain/protocol.py.
--   Bundle.Text has texts as code points and paths, Bundle.Members the member layout,
--   Bundle.Limits the limits, Bundle.Checksums the checksum file, Bundle.Manifest the JSON, the
--   manifest and its signature, Bundle.Inspection the members and the payload statistics,
--   Bundle.Layout the payload checks, and Bundle.Verification the whole.
-- - Profiles: the Harbor profiles of backend/app/services/harbor_profiles.py. Profiles.Words
--   has strip, split and the order of texts, Profiles.Model the state, Profiles.Service the
--   lookup and the binding of operations, Profiles.Editing the changes of the profiles, and
--   Profiles.Requests sequences of requests.
-- - Destination: the destination plan of an import in
--   backend/app/services/import_destination_plan.py and destination_plan_integrity.py.
--   Destination.Model and Destination.Patterns have the data and the name patterns,
--   Destination.Coordinates the collisions, Destination.Planning and Destination.Artifact the
--   plan of one artifact, Destination.Identity the hashed identities, Destination.Persisted the
--   stored policy, Destination.Build the building of a plan, Destination.Start the start of the
--   import with Manager.Workers.submit at its end, Destination.Defaults the defaults of
--   backend/app/services/destination_mapping_policy.py, Destination.Validator the validator of
--   backend/app/services/harbor_destination_validator.py, and Destination.Projection the
--   projection of a verified bundle.
-- - Import: the worker of an import in backend/app/services/import_orchestrator.py. Import.Loop
--   is the loop over the artifacts, on a registry with its own state, Import.Worker what is
--   around it, and Import.Imported describes the steps of a loop without failures.
-- - Base: tests, lists, results and the names of the libraries that the parts share.
--
-- How state and calls correspond
-- - A function takes the state and returns a Result with the new state. An exception is err,
--   and the transaction is then rolled back: no new state. Where the source commits before it
--   raises, as in the mode service, the function returns the state beside the result.
-- - A table is a list of rows; where the source orders them by key, the model sorts. Database
--   keys are counters. Times are natural numbers, given by the caller for each reading of the
--   clock; the limiter counts microseconds.
-- - The loops of the program run over rows, artifacts or fields, and are structural recursion;
--   no fuel is used. Runs of the system are finite sequences of steps of any length.
-- - The worker of an operation, the keyed hash of the limiter, strip().lower(), and the reading
--   and writing of ints by int() and str() are parameters.
-- - The libraries behind a bundle (SHA-256, Ed25519, UTF-8, JSON, JSON Schema, the coercion and
--   the other field constraints of pydantic, and the division of floats) are the fields of one
--   record, and a key is the bytes of its public half. An archive that tarfile cannot read to
--   its end has no members.
-- - What TARGET answers is one function for the time of a planning, and the hash of a canonical
--   JSON is a function of what the JSON denotes. An operation that is read at several moments
--   is a parameter for each. The stored JSON of a plan and of its mapping is a text, which
--   pydantic, a parameter, dumps and validates; the other stored JSON is what it denotes, and a
--   new profile id is fresh.
-- - The registry that an import writes is a state with the operations of its tools, of which no
--   law is assumed; each gives a value, an exception that the loop catches, or another one. A
--   cancellation may be requested before any artifact.
-- - The text of an int in the settings rows of the mode stands for what int() makes of it.
--
-- Not modelled: the event loop and the semaphore (a run may start at any time), the delivery of
-- a cancellation to a task, the workspaces on disk but for whether they are removed, log
-- records, the surrogate keys and dates of rows that no decision reads, and the registries,
-- archives, keys, documents and HTTP routes around these parts.
pub mod Base
pub mod Domain
pub mod Manager
pub mod Runtime
pub mod Login
pub mod Policy
pub mod Retention
pub mod Bundle
pub mod Profiles
pub mod Destination
pub mod Import
