-- ===== src/Lib.antt =====
-- A model of gorums, a library for quorum calls on configurations of nodes, and theorems on it.
--
-- Parts and files. The paths are from the repository's root.
--   Prelude: shared names, the Boolean tests on ℕ, lists over the native ℕ, integers, equality of
--     keys, and the monad Go of code that may panic.
--   Errors: errors.go, internal/stream/errors.go, internal/impl/errors.go, internal/conn/errors.go.
--     Errors are a data type; `errors.Is` is a record of operations that its clients take.
--   Impl: the client's side of a call. Impl/Responses is internal/impl/responses.go (the terminals
--     First, Majority, All, Threshold), Impl/Terminals is internal/impl/terminals.go (Aggregate,
--     Reduce, Matching), Impl/Correctable is internal/impl/correctable.go, Impl/Call is call.go and
--     call_context.go of internal/impl (Sends and FanOut the sends to the nodes, Once the dispatch,
--     Sequences the responses of a quorum call, Collects the confirmations of a one-way call).
--     The responses of a call are the list that the iterator yields.
--   Stream: one node's channel, of internal/stream. Stream/Request is request.go and message.go,
--     Stream/Pending is pending.go (the table of calls that await a response), Stream/SendQueue is
--     send_queue.go, Stream/Dispatch is dispatch.go (the queue of handlers), Stream/Transport is
--     transport.go and the endpoint of channel.go, Stream/Local is local.go (the channel to the handler
--     of this process, a client of the dispatcher), Stream/Session is session.go (one stream: SendLoop
--     its send loop, Steps its steps, Verdict the decision whether the server accepted or refused the
--     stream, Calls where the calls of a session are), Stream/Backoff is the backoff of outbound.go,
--     and Stream/Outbound its loop that opens streams (Loop the loop as a whole, Up the state of the
--     stream, Refusals what follows a refused stream, Rounds the timer between its rounds).
--   Conn: internal/conn. Conn/Config is the set algebra and Watch of config.go, Conn/Streams the
--     inbound streams of a node of node.go, Conn/Inbound the registry of inbound_manager.go
--     (Current its views, Waits the calls that wait for a condition on a view, Assigned the IDs that it
--     gives to clients, Admissions whom it accepts), Conn/Pool the connection pool of
--     outbound_manager.go (Distinct its nodes, Closing its Close), and Conn/Nodes the builder of
--     configurations of node_source.go (Built what it builds, Complete when it succeeds).
--     Conn/Opening is NewConfig and Extend of config.go, which bring the pool, the builder and the set
--     algebra together (Extends the IDs, Releases the nodes of a failure), and Conn/Order is its Sort with
--     the comparators of node.go.
--     Conn/PeerVerifier is peer_verifier.go (Wants for which nodes there is a verifier, Accepts whom it
--     accepts).
--   Tree: tree.go, the arrangement of a configuration as a tree.
-- A call goes from Impl through the channel's send queue to a session, which records it in the
-- table of pending calls; its responses come back through the table.
--
-- Concurrency. Each operation of the code that runs under a lock is one step. The cases of a select
-- statement are data, and a predicate says which of them can be taken. The send loop of a session runs
-- in steps and its place is part of the state; a round of receiving, its end and a drain are one step
-- each. A history is any sequence of the steps that can be taken. A context is named by a number, and
-- the state of the contexts at one time is a function to their errors.
--
-- Integers. An `int` of tree.go is a natural number or, where the code uses a negative value, an
-- option; the guards against overflow are kept, with 2^63 - 1 as the largest int and 2^64 as the
-- modulus of uint. Counters of calls, of channels and of handlers are natural numbers.
--
-- Fuel. The loops of tree.go run on fuel: the number of nodes, or of levels asked for, which each
-- round of the loop uses up by at least one. The search for a client ID runs on the number of
-- candidates left. The theorems on them give a result for this fuel.
--
-- Not modelled: gRPC, protobuf and the Go runtime, which the code only calls; generated code; the
-- constructors of calls, RemoteCall and MapResponse, of internal/impl; in outbound.go, the set of
-- sessions that still receive, the watch for a GOAWAY and what Close waits for; the construction of an
-- inbound channel; the replacement of a transport's channel; WaitForAllRequired of config.go;
-- latencies, which are computed on floating-point numbers; the server; the tools under cmd and
-- internal/cmd; benchkit and the examples.
--
-- Parameters. The resolution of an address and the error of grpc.NewClient are functions of the address;
-- what net, net/url and strings tell of the text of an identity are functions of the text.
pub mod Conn
pub mod Errors
pub mod Impl
pub mod Prelude
pub mod Stream
pub mod Tree
