-- ===== src/Lib.antt =====
-- girc: an IRC client library (the Go package at the repository's root).
--
-- The development models the part of the library that has logic of its own: names and how they
-- are compared, message sources, message tags, channel modes and user permissions, the lines of
-- the protocol and CTCP messages, the state tracker, the built-in handlers that feed it, the
-- registry of handlers, the commands, the SASL exchange, the connection and its strict transport
-- policy, and the command handler of cmdhandler.
--
-- Prelude: Go strings and byte slices are lists of bytes (Bytes), Go maps are association lists
-- (Map), sort.Strings is an insertion sort, and an expression that may panic has an Outcome.
-- Text: format.go (ToRFC1459 in Text.Fold, the validity tests in Text.Valid, Glob in Text.Glob,
-- Fmt, TrimFmt and StripRaw in Text.Fmt). Source, Event, Wire (ParseEvent, and Event.Bytes and
-- Event.LenOpts in Wire.Print) and Messages (IsAction, StripAction, IsFromChannel, IsFromUser,
-- Copy and Equals, and Pretty in Messages.Pretty): event.go. Ctcp: the encoding of ctcp.go. Tags:
-- cap_tags.go. Modes and Perms: modes.go. Tracker: state.go, with a Go pointer into a map read as
-- the entry at its key, and every write through it as an insert at that key; the listings are in
-- Tracker.Members and Tracker.Roles. Client: the part of client.go that the handlers use;
-- Client.Queries: what a user may ask a client for. Handlers.Membership and Handlers.Details: the
-- handlers of builtin.go, modes.go, cap.go and cap_tags.go. Registry: handler.go. Commands:
-- commands.go. Sasl: cap_sasl.go. Cap: cap.go. Policy: strictTransport in state.go. CmdHandler:
-- cmdhandler/cmd.go.
--
-- How the parts interact: a handler of Handlers takes the Client and an Event, calls the
-- operations of Tracker on the client's state, and records what it hands to Client.Send and
-- state.notify. Tracker uses Text.Fold for its keys and Modes and Perms for what it stores.
-- Handlers.Sequences puts the handlers together: any order of calls, as they run one at a time
-- under the lock of the state. Commands and Sasl give the list of what they hand to the
-- connection (Actions), in its order; Commands builds on Ctcp for CTCP messages and on Wire for
-- raw lines. Registry is about handlers of any type. Cap (cap.go) runs the negotiation of
-- capabilities over a state of its own (the capabilities and the strict transport policy of
-- Policy), reads Config.SASL from Sasl, and also lists what it hands to the connection. Replies
-- (the handler table of ctcp.go) puts Ctcp and Commands together, as RunHandlers does. Split
-- breaks a long message into lines (splitMessage of format.go) and into events (Event.split of
-- event.go, in Split.Events), and uses Wire.Print for their length. Limits is the length that
-- Client.MaxEventLength gives to Split and to Commands, as handleISUPPORT sets it. Setup is the
-- test of a configuration and what the client does once it is connected. Conn is the part of
-- conn.go that decides: when the keep-alive loop gives up, how long a line has to wait, and what
-- becomes of an event that is read or written. Conn.Send is Client.Send, with what becomes of the
-- connection between its steps as an argument. Conn.Stream is what sendLoop writes and readLoop
-- reads: the bytes that have arrived, cut into lines, parsed by Wire. Conn.Session is a machine
-- for newConn and internalConnect; its inputs are a call of Connect with what dialing gives, an
-- event that is received (handled by Cap), and the end of the loops; Cap.Upgrade is about the
-- policy that Cap takes from an event.
--
-- ParseEvent takes a Platform: the clock, time.Parse, and the Unicode tables behind
-- strings.ToUpper, strings.Fields and bytes.ToValidUTF8, which are asked about texts with a byte
-- outside ASCII only. Every loop is a recursion on a list, but readLoop, which has fuel for one
-- round more than the stream has bytes, since a round that goes on has read a line; the one of
-- ParseEvent that looks for " :", which has fuel for one round more than the line has bytes; and
-- the one of handleSASL, which has as much as the response has bytes, since a round that goes on
-- takes 400 bytes off it; and the jumps to checkappend in splitMessage, which have fuel for two
-- rounds more than twice the bytes of the word, since a round that goes on shortens the word or
-- begins a new line, if the codes that a new line takes up leave room on it; a run out of fuel
-- counts as a panic, here too where there is no such room and the code loops for ever. The time
-- of day is an argument, `now`. Names are compared through ToRFC1459; a name is called settled
-- where a second ToRFC1459 changes nothing, which the tracker relies on since it folds some names
-- twice.
--
-- What an operation hands to Client.Send is recorded, but by Commands.SendRaw, which takes Send
-- as an argument; whether Send then panics is a matter of Conn.Send and Split, so a handler that
-- does not panic is one that does not up to what Send does. Not modelled: sockets, timers and
-- goroutines (conn.go, ctxgroup), logging, JSON, and the text of log lines. Locks are not
-- modelled: each handler is one step. The user's own handlers are outside the model: a
-- notification is recorded and nothing more.
pub mod Prelude
pub mod Text
pub mod Source
pub mod Modes
pub mod Perms
pub mod Event
pub mod Tracker
pub mod Client
pub mod CmdHandler
pub mod Handlers
pub mod Tags
pub mod Wire
pub mod Ctcp
pub mod Actions
pub mod Sasl
pub mod Cap
pub mod Conn
pub mod Split
pub mod Limits
pub mod Setup
pub mod Replies
pub mod Policy
pub mod Commands
pub mod Registry
pub mod Messages
mod Tests
