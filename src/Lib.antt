-- ===== src/Lib.antt =====
-- The runner of the asm-dataset matrix (python/compiler_suit_runner), in part: how the build graph
-- is planned and streamed to the primary, how variants are partitioned, how toolchains are
-- replicated, and how enumerations are memoized.
--
-- The dependency-graph worker plans phase-4 descriptors and streams them to the primary in messages
-- of bounded size; the partition of phase 1 feeds that planning; the secondaries replicate the
-- toolchains that the builds need. The primary turns each batch into tasks and import gates, and
-- checks at the end of the phase that nothing was lost. The parts share Prelude and Json and no
-- state.
--
-- * Planner models the package python/compiler_suit_runner/dependency_graph_planner: Graph
--   (templates and their nodes), Cycle (cycle.py), Descriptors (the constructors of
--   descriptors.py), Shapes (the planner's result and shapes.py), Cell (plan_cell.py), Meta
--   (plan_meta.py) and Total (plan_total.py). Acyclic, Coloring, Walking and Checking prove the
--   cycle check; Gates, CellGates, Extras, MetaPass, Binary, Merging and Whole what waits for what;
--   Refusal the errors; Coverage and Included that every variant has its descriptor. The functions of python
--   package template_graph that are imported, with the table of arch families, are the record
--   `TemplateGraph`, and may be any.
-- * StreamedSpawn models python/compiler_suit_runner/streamed_spawn.py. Checks has the validation
--   helpers, Codec `Phase4Descriptor` (dependency_graph_planner/descriptors.py) and its codec,
--   Encoder the class `SpawnBatchEncoder` with `add`, `flush`, `_emit` and `encode_summary`,
--   Decoder `decode_spawn_message`, and Stream the producer `_stream_descriptors` of
--   workers/dependency_graph_worker/run.py. Splice, Adding, Batches, Flushing, Delivery, Progress
--   and RoundTrip prove.
-- * Handoff models the primary's side of that stream. TaskIds has the ids of import gates
--   (python/compiler_suit_runner/suit_task.py and preflight.py), Headers `ManifestHeader`
--   (manifest_gen.py) and `headers_from_descriptors` (dependency_graph_planner/manifest_glue.py),
--   Tasks the tasks that headers become, Discover `_discover_import_gate_tasks`, and Suit the class
--   `SuitTask` as far as the stream reaches it: `on_phase_start`, `custom_message_handler` with its
--   helpers, `on_phase_end` and `worker_message_listener`. Making, Gating, Handling, Sent,
--   Reconciled, Affine, Discovered and Raising prove. A message is the value that `json.loads`
--   reads of its bytes. What `spawn_tasks` is given is a list; the errors that it returns are only
--   logged by the code, and `PrimaryHandle` says whether it raises. `format` is Python's text of values that are no texts, and may be any.
-- * Partition models python/compiler_suit_runner/partition.py: Variant, Shards
--   (`split_into_shards`), ShardFiles (`write_shard_output`, `read_shard_outputs`), Frequencies
--   (the counts and `classify_input_drvs`) and Envelope (`build_partition`, `write_partition_json`,
--   `read_partition_json`). Splitting, Slices, Sets, Classify, Building and RoundTrip prove.
-- * Replication models the sender, the receiver and the repair worker of
--   python/compiler_suit_runner/peer_replication.py: Context, Sender, Settle, Receiver, Repair,
--   and Events, the histories of a sender. Offers, Chosen, Attempt, Quiet, Settling, SettleSteps, History,
--   Converged, Handshake, Cancelling, Repairs and Excluded prove.
-- * Broadcast models the broadcast classes of the same file: Sender (`BroadcastSender`, its worker
--   as rounds that end at the sentinel) and Receiver (`on_broadcast_offer` and the targets of the
--   fan-out). Steps has the steps of the sender's calls; Completion and Flood prove.
-- * Cache models python/compiler_suit_runner/incremental_cache.py: Key (the axes, the canonical
--   bytes and the message that is hashed), Payload (the payloads and their validation) and Store
--   (`IncrementalCache`). KeyProofs, RoundTrip, Entries and Lookups prove. A directory of the cache
--   is a dict of its entries; `sha256`, `os.path.exists` and what a best-effort `rmtree` leaves of an
--   entry are parameters.
-- * Holding models python/compiler_suit_runner/holding_matcher.py, with the regular expression as
--   the functions that read it. Its child Reasons proves.
-- * Json has JSON values, and Json.Dumps the text that `json.dumps` makes of them. Prelude has what
--   all share. Tests has runs on small inputs.
--
-- A method takes the object's state and returns its result and the new state, also where it raises.
-- A `ValueError` is a value that keeps what its message is made of. A dict is an association list
-- in the order of insertion, a set a list of its items, each once. A text of JSON is a list of code
-- points, which for ASCII are its bytes. Sends, timers and pushes are lists of effects in their
-- order. A method that holds a lock is one step; one that lets go of it is a step for each part:
-- `_fire_settle` (`settle_check` and `settle_publish`), a fetch (`begin_fetch` and `end_fetch`), and
-- `enqueue_broadcast` and `stop` of the broadcasts. The repair worker reads the placements anew for
-- each push and each mark (`Readings`). Every operation takes its own context, so that the
-- answers of peers, of the placements and of `random.sample` may differ from call to call. The
-- sample is a parameter with the laws `SampleLaws`: it has the size asked for and picks positions
-- at most once. Recursion is structural, but for the walk of the cycle check: it has as many rounds
-- as the template has nodes and children, and one more, which `check_no_cycles-Verdict` shows to be
-- enough.
--
-- Not modelled: the parser of JSON texts, UTF-8 beyond ASCII, logging, clocks and threads; a
-- `send_message` that fails, which ends the stream with its error, and an `rmtree` of `invalidate`
-- that fails; the worker thread of the broadcast receiver; the template graph, the rest of the suit
-- task, the workers, the command lines, and the nix expressions.
pub mod Prelude
pub mod Handoff
pub mod Holding
pub mod Json
pub mod StreamedSpawn
pub mod Partition
pub mod Planner
pub mod Replication
pub mod Cache
pub mod Broadcast
pub mod Tests
