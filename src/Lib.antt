-- ===== src/Lib.antt =====
-- IICP's Python client and provider library: a model of the parts that keep state or decide, and what
-- is shown of them. The sources named below stand under src/iicp_client/ of the repository.
--
-- The parts:
-- - Lifecycle: the opt-in lifecycle of a service task. Lifecycle/Store.antt is `LifecycleStore` of
--   service_lifecycle.py: `submit`, `status`, `transition`, `cancel` and `events_after`, and, in
--   Store/Snapshots.antt, `snapshot` and `restore`; Store/Runs.antt has sequences of calls and
--   restarts. The store's states and transitions are in Lifecycle/States.antt. Lifecycle/Cancellation.antt is `BackendCancellationRegistry`,
--   Lifecycle/Observer.antt is `BoundedObserverBuffer`, and Lifecycle/Accounting.antt is
--   `decide_lifecycle_accounting` of service_lifecycle_accounting.py.
-- - Native: the native transport. Native/Frames.antt is the framing of iicp_tcp.py,
--   Native/Responses.antt is `NativeResponseSequence` of native_response_sequence.py, and
--   Native/Calls.antt is `NativeCallIdentityRegistry` of native_call_identity.py. Of iicp_tcp.py,
--   Native/Session.antt is `IicpTcpServer._session`, from the chunks of a connection to the frames
--   that are dispatched, Native/Streaming.antt is `_on_stream_call`, Native/Payloads.antt is
--   `encode_lifecycle_response` and `_decode_lifecycle_response`, and Native/Client.antt is
--   `IicpTcpClient._read_frame` and the loop of `stream_call`. Native/Server.antt is `_dispatch` with
--   the handlers of INIT, PING, DISCOVER and RELAY_BIND, and `IicpTcpClient.handshake`; `_on_call`
--   of a call that does not stream is an argument.
-- - Admission: dispatch_admission.py, the single-use redemption of dispatch tickets, with its SQLite
--   table as a dictionary.
-- - Serving: what admits work to a provider. Concurrency.antt is `ConcurrencyGate` of concurrency.py,
--   Idempotency.antt is `IdempotencyGuard` of idempotency.py and `ReplayCache` of
--   proxy/cip/receipts.py, RelaySessions.antt is `RelaySessionRegistry` of relay_session.py, and
--   Schedule.antt is availability.py and scheduler.py.
-- - Routing: what chooses a provider. Breaker.antt, Retry.antt and Selector.antt are
--   circuit_breaker.py, retry.py and selector.py of proxy/routing/, Router.antt and
--   Fallback.antt are its router.py and fallback.py, which call the breaker and the retries, Race.antt
--   is its aggregator.py, Recovery.antt is recovery.py, and Peers.antt is `PeerManager` of
--   peer_manager.py.
-- - Cooperative: Strategies.antt and Gates.antt are strategies.py and gates.py of proxy/cip/, which
--   decide whether a task may leave the proxy's machine, and Aggregation.antt and Receipts.antt
--   are aggregation.py and receipts.py.
--
-- How they are modelled: a method that changes its object is a function from the old state to the
-- result and the new state; Prelude/Exec.antt has the notation for methods that raise. A `dict` is the
-- list of its entries in insertion order (Prelude/Dict.antt). A lock makes a method one step, so a
-- theorem about runs is about any sequence of calls. Clocks, digests, hooks, handlers and random
-- keys are arguments. Times are natural numbers, and so are the amounts that the source keeps as
-- floats, in a unit fine enough for all of them: rounding is not modelled. Two loops take fuel, which
-- bounds their turns: the server's session and the client's `stream_call` get one turn more than there
-- are bytes to read, and a turn that is not the last takes a header of 12 bytes at least. The others
-- recurse on their list or on their counter. The CBOR library is an argument; the theorems that need it
-- say what it has to do.
--
-- Not modelled: the network servers and clients (node.py, client.py, `_on_call` and the
-- other calls of the client of iicp_tcp.py, the server of relay_session.py, the proxy's HTTP
-- application), the command line, the backends, cryptography, the SQLite form of the lifecycle
-- store, address detection and tunnels: they are mostly calls of libraries and of the operating
-- system.
pub mod Prelude
pub mod Lifecycle
pub mod Native
pub mod Admission
pub mod Routing
pub mod Serving
pub mod Cooperative
