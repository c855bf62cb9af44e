-- ===== src/Lib.antt =====
-- A verification library for RemoteX, a remote desktop: a viewer controls a host over an
-- end-to-end encrypted session that a signalling server brokers and, where needed, relays.
--
-- The parts, and the files that model them (paths from the repository's root):
--   * Security/Limiter: crates/security/src/limiter.rs, `AttemptLimiter`. A `Duration` and an
--     `Instant` are numbers, the time is an argument of each call.
--   * Security/Channel: crates/security/src/channel.rs, `Sealer`, `Opener` and `SecureChannel`. The
--     AEAD cipher is a record of operations and laws that the lemmas take as a parameter.
--   * Common/Ids: crates/common/src/ids.rs, `DeviceId` and `SessionId::to_hex`.
--   * Common/Event: the input events of crates/common/src/peer.rs.
--   * Common/Peer: the messages of crates/common/src/peer.rs, `Msg::validate` and `Permissions`.
--   * Server/State and Server/Hub: server/src/hub.rs. State holds the records behind the mutex, Hub
--     the methods, Hub/Connect and Hub/Relay `Hub::connect` and `Hub::relay_route`. Each method is
--     a function from the state to a result and a state; a run is a list of calls in the order in
--     which they take the mutex (Hub/Run). The hub uses the limiters and the ids.
--   * Session/Secure/Fragment: crates/session/src/secure.rs, how a message becomes units and how the
--     reader puts them together. The units are the plaintexts of Security/Channel.
--   * Security/Pake and Session/Handshake: crates/security/src/pake.rs and
--     crates/session/src/handshake.rs. The cryptography is the record `Crypto`; what a side receives
--     is an argument of it. The handshake gives each side a channel of Security/Channel.
--   * Security/Random: crates/security/src/password.rs and ids.rs, with the random bytes as arguments.
--   * Common/Signaling and Server/Ws: crates/common/src/signaling.rs and server/src/ws.rs, one
--     connection as steps that call the hub; what it does besides is a list of effects.
--   * Session/Transfer: crates/session/src/transfer.rs, `FileManager`: State its records and
--     bookkeeping, Incoming the receiving side and the queue, Messages and Commands its methods,
--     Calls a run of them. It uses Files/Names and Files/Transfer; the file system is the record
--     `World`.
--   * Session/Adapt and Session/Bulk: crates/session/src/adapt.rs and bulk.rs, over Float.
--   * Session/Host: crates/session/src/host.rs, the loop of `run`: State what it keeps, what happens to
--     it and what it does besides, Turn one turn of the loop and its run. It uses Session/Transfer,
--     Session/Adapt, Session/Bulk and Input/Clipboard.
--   * Input/Clipboard: crates/input/src/clipboard.rs, over any backend.
--   * Session/Secure/Send: the same file, `InputClock`, `SecureTx::send_input` and `push_ctl`.
--   * Session/InputThread: crates/session/src/input_thread.rs, as a list of steps of the session and
--     of the thread.
--   * Input/Injector: crates/input/src/injector.rs, the records that are sent to the operating system.
--   * Files/Names and Files/Transfer: crates/files/src/lib.rs. A disk is a map from paths to contents.
--   * Elevate/Proto: crates/elevate/src/proto.rs, the frames on the pipe to the service and the checks
--     of requests. The serialisation crate is a record of operations and laws.
--   * Service/Broker: crates/service/src/broker.rs, the grant of elevated control. Where a
--     call gives the lock of the slot back in between, as `Broker::grant`, `inject` or `revoke` do, it
--     is two steps, and what the thread has still to do is part of the state.
--   * Prelude, Map and Float hold what the parts share: tests on numbers, lists, decidable equality,
--     hash maps with their laws, and the interface of floating-point numbers, of which nothing but
--     the operations is assumed.
--
-- Words of the machine keep their wrap-around (`% 2 ^ w`). The loop that cuts a message into units
-- runs on fuel: one round for each 8 KiB fragment and one more. The loop that sends a file runs on
-- fuel too: one round for each byte that is left and one more. Both are proved to be enough. The
-- loop that starts waiting downloads (`start_queued`) has `none` for a lack of fuel; one round for
-- each of them and one more are proved to be enough where their files can be opened.
--
-- Not modelled: the operating system (screen capture, SendInput, pipes, processes, the disk's own
-- failures), TLS, the database, the serialisation crate, the cryptography, and the user interface. The
-- positions on the screen that crates/input/src/injector.rs computes in floats are a parameter.
pub mod Prelude
pub mod Map
pub mod Float
pub mod Common
pub mod Security
pub mod Server
pub mod Session
pub mod Input
pub mod Files
pub mod Elevate
pub mod Service
