-- ===== src/Lib.antt =====
-- Go SDK of Hyperledger Sawtooth: what a transaction processor does, from the sockets to the state.
--
-- A transaction processor registers its handlers with a validator (processor/processor.go), routes
-- the validator's messages to its workers and the workers' messages back, and a worker
-- (processor/worker.go) finds the handler of each request and runs it on a context
-- (processor/context.go), whose calls are again messages to the validator (messaging/connection.go).
-- The families under examples/ are handlers.
--
-- Base: the names that the other modules share. A string is the list of its bytes, a Go map an
--   association list with one entry for a key, an `int` an integer whose operations wrap at 64 bits.
-- Processor/Errors: processor/errors.go. A Go call is a function of the state that it changes; it
--   ends with a value, with an error, or with a panic, and what it wrote stays written.
-- Processor/Store: the state calls that a handler makes, as an interface, with what they mean for
--   what the validator holds at an address. Handlers take it as a parameter.
--   Store/Clean is about calls that change nothing if they fail.
-- Processor/Context: processor/context.go over the interface of a connection; Context/Stored and
--   Context/Atomic are about the store that it is over a validator.
-- Processor/Worker: processor/worker.go, `findHandler` and the loop over the queue. Worker/Answers
--   and Worker/Applied have the specification of the loop, the runs that it may have, and
--   Worker/Preserved is about what its handlers preserve.
-- Processor/Router: `receiveValidator` and `receiveWorkers` of processor/processor.go.
-- Processor/Register, Processor/Start: `register` of processor/processor.go, and the registration
--   of all handlers.
-- Processor/Shutdown: the monitor, `shutdown`, and the loops of `start` and `Start`.
-- Messaging/Message, Messaging/Connection: the message, the interface `Connection`, and
--   `ZmqConnection` of messaging/connection.go with its store of early replies. Dial is how a
--   connection and its monitor are made.
-- Logging: logging/logger.go, the logger and its levels. The other modules leave out what is logged.
-- Signing: signing/core.go and signing/secp256k1.go. Compact is the form of a signature as 64 bytes.
-- Xo: examples/xo_go. Payload is xo_payload.go; Games the text form of the games at an address and
--   State the accessor with its cache, both of xo_state.go; Board (the rules), Display and Handler
--   are handler/handler.go; Handler/Served puts the handler into a worker.
-- Smallbank: examples/smallbank/smallbank_go. Balance is the arithmetic on uint32 and int32,
--   Accounts `loadAccount` and `saveAccount`, Handler the six transactions.
-- Intkey: examples/intkey_go. Value is the arithmetic and the checks, Handler `Apply`; the values that
--   the validator holds are seen through Handler/Updates, and Handler/Served puts the handler into a
--   worker. Client is sawtooth_intkey_client: how a transaction is built; Client/Requests how it is
--   sent, Client/Queries `Show` and `List`, Client/Commands how a client is made and what the
--   sub-commands run. Yaml is what the client reads of a response.
-- Consensus: the package consensus. Types is types.go, Interface is iface.go. Rpc is `serviceRpc` and
--   Service the methods of service.go. Startup is the handshake of engine.go (`register`,
--   `waitUntilActive`), Engine the messages that it routes and the updates that it makes of them,
--   Shutdown the monitor, `receiveShutdown` and the polling loop, Start `start` and `Start`.
-- Noop: examples/noop_go, a handler that accepts everything.
-- Devmode: examples/devmode_consensus/engine.go over the interface ConsensusService, which is a
--   parameter: `HandleBlockNew` and `HandleBlockValid`. Blocks is the building of blocks and the
--   wait between them, Publishing the loop of `Start`.
-- Tests: a state in memory, concrete runs, and the theorems applied.
--
-- Parameters: SHA-512 is any function to bytes, and where the length of its digest matters this
-- is a hypothesis; protobuf, CBOR, YAML, ZeroMQ and the curve secp256k1 are records of functions
-- that may fail, and a theorem that writes and reads back asks for the round trip; sockets are an
-- interface on a state of their own. A Go map yields its entries in any order: where the source
-- ranges over one, the order is that of the association list, and where the source sorts, so does
-- the model. These run on fuel: printing a number, where the number itself is enough; the loop
-- down the chain in `HandleBlockValid`, where the head's block number is, if the service finds
-- the chain's blocks; the registration of an engine and the wait for its activation, a unit for
-- each poll; the polling loops of a processor and of an engine, a unit for each poll; the
-- restarts of either; the client's questions for a status; and the wait of devmode for a block to
-- get ready, a unit for each call. The other loops go over lists.
--
-- Not modelled: signals, the closing of the sockets of a processor and of an engine, keys in PEM,
-- which are loaded by C code over OpenSSL, the parsing of command lines, which is a library's,
-- generated code, mocks, and the mains.
pub mod Base
pub mod Processor
pub mod Signing
pub mod Logging
pub mod Messaging
pub mod Noop
pub mod Xo
pub mod Smallbank
pub mod Tests
pub mod Intkey
pub mod Devmode
pub mod Consensus
