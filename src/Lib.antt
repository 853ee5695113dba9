-- ===== src/Lib.antt =====
-- lierc is an IRC bouncer. Each connection of a user is an IRCClient (pkg/lierc) that liercd
-- (cmd/liercd, pkg/liercd) runs: the lines of the server go through irc-go, which is not part of the
-- repository, to one handler per command (pkg/lierc/events.go), and the handler changes the client's
-- state, queues lines for the server (pkg/lierc/sender.go) and returns what is to be published. liercd
-- queues what is published for nsqd (pkg/liercd/publisher.go), and answers the requests of the API
-- (pkg/liercd/manager.go). The logger (pkg/logger) stores it and
-- the notifier (pkg/notify) mails it. identd (cmd/lierc-identd) tells an IRC server which user a
-- connection belongs to.
--
-- Base: the types and lemmas that the modules share. A Go string is a list of bytes (Text), a map an
--   association list without repeated keys (Base/Maps), a time a number with none for the zero time.
-- Unicode: what the program uses of Go's unicode and strings packages is a parameter, the record
--   Unicode, with the laws IsUnicode that its proofs rely on; Unicode/Ascii is an instance that
--   satisfies them. Strconv: strconv.Atoi and Itoa, over a 64-bit int.
-- Isupport, Channel, Config: pkg/lierc/isupport.go, channel.go and config.go.
-- Irc: pkg/lierc/message.go, over irc-go's messages and parser (the record IrcGo).
-- Client: the state and the operations of pkg/lierc/client.go; Client/Data is the status that the API
--   shows. The lock is not modelled: each operation runs with the client locked, so that it is one
--   step.
-- Events: pkg/lierc/events.go. A handler takes the client, the message and the effects so far, and
--   returns both. Events/Nick has the handlers of refused nicks, Events/Names those of a channel's
--   names, modes and topic, Events/Handlers the rest and the dispatch. irc-go's names of numerics are
--   written as the numerics of the IRC protocol that they name.
-- Connection: pkg/lierc/connection.go. The parts that run with a lock held are operations of one
--   state (Attempts); Connection/Endings has those of endAttempt and Destroy, Connection/Steps lets them
--   happen in any order, with the goroutines, timers and calls of endAttempt that are under way as
--   lists. Connection/Tracked is the socket that keeps its
--   first error, Connection/PortMap an entry of /portmap, Connection/Messages the options of irc-go's
--   connection and what the end of an attempt is reported as.
-- DialGuard: pkg/lierc/dialguard.go; DialGuard/Dial has Exempt and pkg/lierc/dial.go.
-- Sender: pkg/lierc/sender.go. The goroutine, the callers of Send and Stop are operations of one
--   state, in any order; run takes a line in one step and passes it on, when the rate limiter lets it, in
--   another one.
-- Publisher: pkg/liercd/publisher.go, in the same way; what nsqd answers is an input of each round.
-- Manager: pkg/liercd/manager.go. Clients are numbers of a list of objects, where one that was destroyed
--   stays; Manager/Requests is HandleCommand, one request at a time, with the steps that other goroutines
--   take during Destroy as an input, and Manager/Line what it does with a raw line. Manager/Tasks cuts
--   create and destroy where other requests can come between; what is left of the end of an attempt when
--   these steps are over comes behind them, since Destroy returns only then; Manager/Shutdown is Shutdown within its
--   three seconds. Manager/Sink is what a line from the server makes a client publish. Manager/Registry has
--   the specification of the set of clients, Manager/Identd the way from liercd's portmap to identd.
-- Liercd: cmd/liercd/main.go. The manager's requests, the lines, attempts and senders of its clients, and the
--   rounds of the publisher come in any order; what a step of the manager queues is offered to the
--   publisher right behind it. Then main stops them.
-- Logger: pkg/logger/classify.go and the handlers of logger.go. A handler returns its calls of the store
--   and of nsqd, and whether it returns an error, in which case nsqd delivers the message again
--   (Logger/Delivery). Logger/Highlights is highlight.go and the reload, Logger/Store what store.go makes
--   of the database's answers, Logger/Inbox the handlers from a message's body on, over that store,
--   Logger/Lifecycle New, Start and Stop, one call at a time, Logger/Setup the configuration and
--   cmd/lierc-logger.
-- Notify: pkg/notify. Notify/Timers has the notifications that wait, their timers and Accumulate, as steps
--   in any order; a notification is a number of a list, where each one stays. Notify/Sending is Send,
--   Notify/Overlaps Sends that are under way at the same time, Notify/Rounds a round of Accumulate with
--   its queries, Notify/WebPush the push, Notify/Setup cmd/lierc-notify,
--   Notify/Email the text of a mail, Notify/Smtp the options of the mail server and the calls to it, with
--   the calls that succeed as a parameter; a panic is none.
-- Ident: cmd/lierc-identd/main.go. Ident/Fetch has the portmaps' addresses and the reading of an answer,
--   over HTTP and JSON as parameters, Ident/Server the loop over a connection's queries and the bound on
--   connections.
--
-- Not modelled: SQL text and the database behind it (an insert that returns an error counts as none,
-- though the database may have made it), logs, the handling of signals before the context
-- that they end, the intervals between retries, the read of the notifier's map of times by a goroutine
-- while another one writes it, the profile that the API dumps, and the timing of goroutines within an
-- operation. Loops recurse on their input, on what is queued or on the outcomes that the outside
-- gives; only the digits of a number n run on fuel, n + 1, which is more than there are digits
-- (Strconv/Decimal).
pub mod Base
pub mod Channel
pub mod Client
pub mod Config
pub mod Connection
pub mod DialGuard
pub mod Events
pub mod Ident
pub mod Irc
pub mod Isupport
pub mod Liercd
pub mod Logger
pub mod Manager
pub mod Notify
pub mod Publisher
pub mod Sender
pub mod Strconv
pub mod Unicode
