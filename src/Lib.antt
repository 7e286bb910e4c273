-- ===== src/Lib.antt =====
-- The cumulative benchmark of wevibe-bench and its budget proxy, modelled and verified.
--
-- The program runs coding sessions against a roster of models, first without and then with a
-- shared memory, and compares them. Its core is the package wevibe_bench/cumulative:
--   * Cumulative/Phase, Gates, Records, Progress: types.py, the records of a run with their dicts,
--     the walk gates and the telemetry seams. Records/Codec has `to_dict` and `from_dict`.
--   * Cumulative/Ordering: ordering.py, the schedule of a run.
--   * Cumulative/Progress/FromCell: progress.py, the result of a cell as a progress vector.
--   * Cumulative/Convergence: convergence.py, the trend over the sessions of a run.
--   * Cumulative/Files and Manifest: manifest.py, the manifest that a run checkpoints and resumes.
--   * Cumulative/Artifacts: run_artifacts.py, the run manifest, the status stream and the scorecard.
--   * Cumulative/Sequencer: sequencer.py, which starts or resumes a run (`Start`), walks each
--     session from PREPARE_FIXTURE over RUN_SESSION to DONE or HALTED_ON_GATE, and saves the
--     manifest behind each step. `Invariant`, `Rounds`, `Loop` and `Termination` carry its proofs.
-- The sessions reach their model through a proxy that holds the upstream key and keeps what they
-- spend below a hard cap, wevibe_bench/adapters/openrouter_proxy.py and openrouter_proxy_server.py:
--   * Proxy/Profile, Policy, Cost, Pricing: the provider profiles, what a request may ask for, the
--     price of a request and its upper bound, and the gate on a price list.
--   * Proxy/Ledger: `BudgetLedger` and its checkpoint; Ledger/Calls has its methods.
--   * Proxy/Logger: the guard and the text of a log line.
--   * Proxy/Server: `ProxyServer`, how a forwarded request is settled (Server) and the request
--     handler that calls policy, cost and ledger (Server/Handler).
-- Around the runs:
--   * Seeding: wevibe_bench/seeding.py, the split of the tasks into seeds and held-out tasks.
--   * Report: wevibe_bench/scorecard.py, the differences of a model with and without memory.
-- Prelude has what these share: Python's numbers, texts, dicts and JSON values, calls that raise,
-- and stable sorting. A function keeps its Python name, without a leading underscore.
--
-- How the code is read. A dict that `json.loads` may give is a `Json` value with its keys in order.
-- A float is an exact dyadic number, and its arithmetic is a parameter (`Builtins`), as are `str`
-- and `int` of a text, `json.dumps` and SHA-256. The random generator, the clock, the faults of
-- file operations and the injected `SessionRunner` are parameters, too (`Random`, `Env`): the
-- runner may raise, and may change the session that it is given; the theorems on whole runs ask it
-- to leave the index, the phase and the gate flag of the session alone (`KeepsSessions`). A file
-- that holds a document stands by the JSON value that it decodes to; a write is the sequence of its
-- file operations, and any of them may fail, as may the removal of the temporary file behind a
-- failed write. `step_until_done` is its rounds on fuel: three for each session and one more are
-- enough. Exceptions are values of `Error`, one for each place that raises.
--
-- The amounts of the proxy are of a type that a record of float operations comes with (`Double`).
-- `Stores` says that a written amount is read back, which Python's `repr` and `json` document, and
-- `Compares` that only a NaN differs from itself. Floats round their sums: `CountsUnits` says only
-- that sums of whole multiples of a unit that are not negative are exact up to a limit, as binary
-- floats are up to 2 ^ 53 units, and what is proved of the hard cap is for such amounts. A request
-- of the proxy meets a `Course`: the answer of the upstream, the file system at each write of the
-- ledger, and whether the answer to the client or a line of the log fails. The ledger's lock makes
-- its calls atomic, so calls of concurrent requests are sequences of calls (`serve`); the handler
-- is modelled for one request after another.
--
-- A datetime of Seeding is of a type with an order (`IsOrder`); the order of texts and, in Report,
-- the quotient of two integers are parameters.
--
-- Not modelled: log lines of the core, the dicts and the JSON text of Report, and the packages
-- around the core (other adapters, backends, other reports, scripts, dashboard), which do I/O or
-- are the parameters above; the OverflowError of `float` on an int beyond the floats in
-- `_coerce_float`, which gives the default here; of the proxy, the HTTP transport, the parsing of
-- event lines, headers, the fetch of a price list and the command line.
pub mod Prelude
pub mod Cumulative
pub mod Proxy
pub mod Seeding
pub mod Report
