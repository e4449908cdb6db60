-- ===== src/Lib.antt =====
-- XnetSocket: the connections of an event-driven TCP library, modelled from its Rust source.
--
-- The program. The event loop (src/io.rs) keeps a slab of connections and passes the poll's events,
-- the commands of the queue and the timeouts to them. A connection (src/connection.rs) reads bytes
-- from its stream (src/stream.rs) into an input buffer, which grows, and gives them to the user's
-- handler (src/handler.rs) as a message (src/message.rs). A message that the user sends goes into the
-- output buffer, which is written out when the poll says that the socket takes bytes. Errors
-- (src/result.rs) go to the handler, and either close the connection or leave it; close codes and
-- operation codes are in src/protocol.rs, and the settings in src/lib.rs.
--
-- What models what:
--   Base, Base/Lists, Base/Effects, Base/Tests: shared names, list lemmas, and `Outcome`, the result
--     of a method on a state: a value, an error (with the state that it leaves), a panic, or no fuel.
--   Protocol, Protocol/Codes: src/protocol.rs. `opcode_into` is `From<OpCode> for u8`, and so on.
--   Errors: src/result.rs. `from_io`, `from_http` and so on are the conversions to `Error`.
--   Message, Message/Utf8, Message/Contents, Message/Printing: src/message.rs, and the UTF-8 of RFC
--     3629, by which the standard library decodes.
--   Buffer, Buffer/Fits: `Vec<u8>` with its capacity and `io::Cursor`, of the standard library, as far
--     as the connection uses them.
--   Platform: what the program takes from elsewhere. `Platform` has the sockets and readiness sets of
--     mio, the `Buf` and `BufMut` of the crate bytes, and the growth of vectors; `Lawful` has what
--     their documentation promises, and `SentLog` and `ReceivedLog` what a socket has been given and
--     has to give.
--   Settings: src/lib.rs, `Settings`.
--   Handler: src/handler.rs. The trait is a record of callbacks, which act on the user's handler and
--     on the world.
--   Stream, Stream/Transfers: src/stream.rs.
--   Communication, Communication/Senders, Communication/Queueing: src/communication.rs. The channel is
--     a parameter (`Channels`), which keeps the order of what is sent (`Fifo`). Also the reserved
--     tokens of src/io.rs.
--   Factory: src/factory.rs, a record of callbacks.
--   Connection: src/connection.rs, by method: Fields (`State`, `Endpoint`, the fields), Setup (`new`,
--     `open`, `as_server`, `as_client`, `reset`, timeouts), Input (`read`, `buffer_in`, `read_data`),
--     Output (`write`, `send_message`, `check_buffer_out`), Closing (`check_events`, `disconnect`,
--     `send_close`, `error`, `shutdown`), Growth (making room in a buffer, which the source has twice).
--   Valid: the invariant of a connection, and its preservation: Invariant, Rooms, Setup, Output,
--     Input and Closing by method, History for sequences of calls, Names for what no call changes.
--   Traffic: the bytes that go out (Sending, Writing, Quiet, Hearing, Replay) and those that come in
--     (Gaining, Receiving, Delivery, Ending, Listening, Pieces, Intake), and Interest for the events.
--   Lifecycle: errors and closes (Reactions), and what stays as it is after them (Finality).
--   Loop: src/io.rs. Site has the slab, the poll, the timer, the listener and the channel as
--     parameters, Fields the loop's state (`Handler` in the source) and how it reaches its
--     connections, Turns the turns for a timeout (`handle_timeout`), after an event (`check_active`,
--     `schedule`), and to end (`shutdown`, `check_count`), Entry how connections get in (`connect`,
--     `accept`), Commands what is done with a command of the queue (`handle_queue`), Events how an
--     event of the poll gets to its turn (`handle_event`), and Runs setting the loop up and running it
--     (`new`, `listen`, `event_loop`, `run`). The others have their properties. Steady is an interface:
--     what a property of the loop has to fill to be kept by all of it; Turned, Entering, Queued, Handled
--     and Rounds carry it through every operation, up to whole runs; and Seats (with Kept), Ledger and
--     Distinct (with Identity) fill it, for a property of each connection, for the count of the
--     handlers, and for the connection ids. Leak has the handler that `connect` drops, Served, Heeded
--     and Timers that events and timeouts are dealt with to the end, Stopping and Farewell (with Tally)
--     how the loop ends and who hears of it, Unfailing, Obeyed, Answered and Faults by which errors it
--     does, Gone what comes too late, Alarmed a timeout that brings the loop down, and Outputs and
--     Broadcast the messages to all.
--   XnetSocket: src/lib.rs, `XnetSocket`, `Builder`, `listen` and `connect`; Binding, Keeping and Whole
--     are properties.
--   Tests: a network in memory (Network), a slab (Slots, Counts), a loop with one connection (Office),
--     the theorems applied to them (Examples, Loops, Endings, Sockets, Accounts, Replies), and the unit
--     tests of src/protocol.rs and src/message.rs at the model (Units).
--
-- Conventions. A method takes a `Live`, a connection with the world that its socket and its handler
-- act on, and gives an `Outcome`; a panic keeps no state, an error keeps what was changed before it.
-- A method named `open` is `open_connection` here. A `Result` that the source discards is discarded.
-- A byte is a natural number, and texts are lists of the bytes of their UTF-8. Sizes (`usize`) are
-- natural numbers: they are lengths of vectors in memory, far from the bound of a machine word. A
-- token and a connection id are numbers. Logging has no effect in the model.
-- What is taken from elsewhere is a parameter, and where a theorem needs its documented behaviour it
-- takes that as a hypothesis: `Lawful` and the logs for the platform, `Fifo` for the channel,
-- `LawfulSlabs`, `LawfulKeys` and `LawfulCounts` for the slab, `Timers` for the timer, `Quiet` and
-- `Attentive` for the user's handler, `Ledger` and `Tally` for a factory that counts.
--
-- Fuel. The loop of `buffer_in` reads until the socket would block, and each round but the last takes
-- at least a byte; so the fuel to give is more than the number of bytes that the socket has to give
-- before it would block. The other methods of a connection have no loop. The event loop takes two
-- numbers: `rounds` bounds the polls of its `while`, which ends only when a command, an interrupt, an
-- error of the poll or the last connection of a client ends it, and `fuel` bounds, for each event, the
-- reads of `buffer_in` and the timeouts that the timer gives at once. What is shown of whole runs holds
-- for all of both. The other loops of src/io.rs run over lists.
--
-- Not modelled: logging; the tick, the slots and the capacity of the timer, which are handed to
-- mio; the panics of a user's callback, and so the unit tests of src/factory.rs and src/handler.rs,
-- which assert in callbacks; methods that only give a field; examples/, which are demonstrations on a
-- console; src/util.rs, which passes on names of third parties.
pub mod Base
pub mod Protocol
pub mod Errors
pub mod Message
pub mod Buffer
pub mod Platform
pub mod Settings
pub mod Handler
pub mod Stream
pub mod Communication
pub mod Factory
pub mod Connection
pub mod Valid
pub mod Traffic
pub mod Lifecycle
pub mod Loop
pub mod XnetSocket
mod Tests
