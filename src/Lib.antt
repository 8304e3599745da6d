-- ===== src/Lib.antt =====
-- local_recall: what the program records, when it may record, and what it deletes again.
--
-- The lifecycle (Lifecycle) decides whether anything is captured. src/local_recall/domain/lifecycle.py
-- and lifecycle/gate.py are Lifecycle/State and Lifecycle/Gate: a gate with a state, a generation
-- number, cancel events and counts of running operations. Its methods run under one lock, so a method
-- is a function of the gate and a schedule of calls stands for any interleaving of threads.
-- src/local_recall/lifecycle/actor.py is Lifecycle/Actor: the actor that owns the gate and handles one
-- message at a time. What it calls outside (configuration, audit sink, pipeline control, buffers, the
-- preflight actor, clocks) is answered by an `Environment`, by the number of the call; during each such
-- call worker threads may use the gate (Lifecycle/Workers). Messages are Lifecycle/Messages.
--
-- The pipeline (Pipeline) carries raw frames from capture to the workers: the credits of its edge
-- (pipeline/credits.py is Pipeline/Credits), the registry of cancelled generations
-- (pipeline/cancellation.py is Pipeline/Cancellation) and the ingress (pipeline/ingress.py is
-- Pipeline/Ingress), which takes the gate's permits. The socket is a `Transport`.
--
-- The retention (Retention) selects and deletes old records: retention/planner.py is
-- Retention/Rules and Retention/Planner, retention/engine.py is Retention/Engine. The storage, the
-- decryption and the case folding are parameters. The loop over the pages of the catalog runs on fuel,
-- one unit for each page; `Serves` says how many pages a storage needs.
--
-- The routing (Routing) chooses a provider, and Routing/Gate approves what is sent to one:
-- src/local_recall/routing.py with the values of domain/providers.py and domain/privacy.py. The secret
-- detector, the encoding, the digest and the sort are parameters of the gate of the egress.
--
-- The timeline (Timeline) deletes selected records: timeline/deletion.py is Timeline/Deletion, with the
-- journal's file and JSON in Journal and the transaction in Coordinator. Storage, index, activity and
-- disk are `Services`, each of which may raise, having done any part of its work; a crash is an
-- exception that nobody catches, and `recover` runs after it. `Promise` is what the services keep to,
-- `Faults` a number of errors to come, and `Timeline.Deletion.RoundTrip.IsLawful` what is used of JSON.
--
-- What a request deletes is selected by timeline/scope.py, which is Timeline/Scope (the scopes) and
-- Timeline/Scope/Resolver: it reads the days of a window one by one. Its days are counted before the loop, so the loop needs no fuel.
--
-- The policy (Policy) decides what may be done in a context: policy/engine.py is Policy/Domain,
-- Policy/Match, Policy/Engine (the state), Policy/Decision and Policy/Evaluate, and policy/guard.py and
-- policy/enforcement.py are Policy/Boundary, whose `others` are the calls of other threads between two
-- calls of the engine, and `later` those between the last check and the side effect. A `Library` has regular expressions, case folding, addresses and time zones.
--
-- The session (Session) blocks the capture while the screen is locked or the user is away:
-- session/safety.py is Session, Session/Controller and Session/Preflight, over the policy engine that
-- the two share (Session/Sharing); the clocks, the lifecycle and the audit sink are the controller's `Outside`. Times are nanoseconds, those
-- of the policy microseconds.
--
-- The capture (Capture) asks for frames when they are due and drops those that show nothing new:
-- capture/adaptive.py is Capture/Adaptive (the controller), Capture/Fingerprint (the hash of an image)
-- and Capture/Flow, one call of which runs at a time. The backend is an answer from outside.
--
-- A method that raises keeps what it wrote before, so an `Outcome` has the object beside the value and
-- beside the exception (Common/Exec). Identifiers are numbers. Numbers have no bound, as in Python.
-- Not modelled: sockets, threads' scheduling inside a lock, clocks, files, cryptography, the
-- adapters of the capture, the user interface, and the packages that the modules do not name.
pub mod Common
pub mod Lifecycle
pub mod Pipeline
pub mod Retention
pub mod Routing
pub mod Timeline
pub mod Policy
pub mod Session
pub mod Capture
