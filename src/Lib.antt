-- ===== src/Lib.antt =====
-- DRISHTI analyses Android packages: ingest, static analysis, a sealed dynamic stage, generative
-- analysis, machine learning and a score, each of which writes to a signed, append-only ledger. The
-- modules here follow the parts of drishti/ whose logic decides what is believed and what is run:
--
-- Json, Ledger            drishti/ledger (crypto.py, store.py, verifier.py) and contracts/evidence.py. A
--                         store is the list of its rows, its key and the open job; `append`, `open_job`,
--                         `get`, `query`, `count`, `verify_chain`, `check_claim` and `filter_claims` are
--                         the methods of those names. Ledger.Chain.History composes the calls.
-- Containment             drishti/m3_dynamic/containment.py; the injectable probe runner is a function on
--                         a state of the world. Containment.Admission is admission.py and
--                         contracts/containment.py.
-- Score                   drishti/m6_score/engine.py over the fields of contracts/ that it reads.
-- GenerativeC2            drishti/m3_dynamic/generative_c2.py: `assert_inert`, and `synthesise_response`
--                         from the values that the model proposes.
-- CallGraph, Hypotheses   drishti/m2_static/callgraph.py and hypotheses.py.
-- Normaliser              drishti/m3_dynamic/normaliser.py.
-- Pipeline                drishti/pipeline.py and contracts/job.py. `stage` and `run_pipeline` are functions
--                         on a `State`: the job, its history, the ledger of Ledger, the artefacts and the
--                         events that `on_event` was called with. The bodies of the stages are functions
--                         that return or raise, and are arguments of `run_pipeline`. Pipeline.Walk carries
--                         a property through the stages; Course, Evidenced, Completion and Chains use it.
-- JobRunner               drishti/api/jobs.py: `submit`, `_run` (`work`), `_publish` and `stream`. Calls of
--                         workers that interleave are a list of calls.
-- Safety                  drishti/m4_genai/safety.py.
-- Retrieval               drishti/m4_genai/retrieval.py: `select`, over the paths that CallGraph describes.
-- Morph                   drishti/m3_dynamic/morph.py: `validate_morph`.
-- UploadGuards            drishti/m1_ingest/guards.py, which the first stage of the pipeline calls.
-- Artifact                the artifact that leaves the detonator, of contracts/dynamic_trace.py.
-- Harness                 drishti/m3_dynamic/harness.py: `DynamicHarness` as actions that return or raise
--                         over a `State`, which are the variables of `run`, the world and the log of the
--                         commands. Harness.Guest has the commands and the exceptions, Steps the methods,
--                         Run the method `run`. The harness uses Containment.Admission.
-- TraceSource             drishti/m3_dynamic/detonator.py and trace_source.py: the retried call, the client
--                         of the detonator, the live source over any client, and the replay source.
-- Evasion                 drishti/m3_dynamic/evasion.py, over the groups of Normaliser.
-- C2Bundle                drishti/m3_dynamic/c2_bundle.py and contracts/c2_bundle.py, over GenerativeC2.
-- Prelude, Examples       shared names and lemmas; runs on small inputs.
--
-- The score and the report read the ledger's references; a detonation is admitted only with a
-- manifest made from a containment report, and its artifact becomes a trace only where the live source
-- finds it safe to ingest; the evasion verdict reads the normaliser's groups; these groups and the
-- static hypotheses feed the same pipeline, drishti/pipeline.py, whose stages append to the ledger and
-- whose events the job runner puts on the queue of the job, from which the HTTP routes stream them.
--
-- Parameters: Python's floats (`Platform`, `Floats`), JSON text, SHA-256 and Ed25519 (`Platform`,
-- `Signer`), clocks, fresh ids and the values that stages hand on (`Outside`), `str.lower` of all of
-- Unicode, the length of a JSON text, the graph of networkx, the probe runner, the tools of the harness
-- (`Lab`), the client of the detonator, `subprocess.run`, the hints of `derive_hints`, the fixtures, and what
-- the model proposes. The laws assumed are `IsLawful`, `IsOrdered` and `IsMonotone`, each with an instance in
-- Examples.
--
-- Fuel: the digits of a number take the number itself as fuel, which is more than they are, and the call
-- graph search takes fuel. `CallGraph.Ending.rounds` bounds its rounds by the depth
-- and the greatest number of callers of a node, each item of the queue by what it can still enqueue.
--
-- Not modelled: what the stages other than the report do (of them, the parts above are modelled on their
-- own), HTTP routes, the user interface, Frida, calls of language models, training of
-- models, rendering of reports, files and locks; they are input and output, or third-party code. Of what is
-- modelled there is left out: that Python's `sum` of floats is compensated (here it is a left fold of
-- `add`), a confidence that is nan and texts with lone surrogates in the ledger, the lengths and patterns
-- of a manifest's texts and the fractions of its seconds, and the conversion of a proposed number to an
-- integer. It raises for an infinite one, and the builder of the bundle then has no proposal for the host.
mod Prelude
pub mod Json
pub mod Ledger
pub mod Containment
pub mod Score
pub mod GenerativeC2
pub mod CallGraph
pub mod Hypotheses
pub mod Normaliser
pub mod Pipeline
pub mod JobRunner
pub mod Safety
pub mod Morph
pub mod Retrieval
pub mod UploadGuards
pub mod Artifact
pub mod Harness
pub mod TraceSource
pub mod Evasion
pub mod C2Bundle
mod Examples
