-- ===== src/Lib.antt =====
-- frisbee-go: a messaging framework for Go in which two ends of a TCP connection exchange packets,
-- each a ten-byte header (magic number, identifier, operation, length) and a content.
--
-- Parts of the program, and where they are modelled. A connection is either synchronous (sync.go:
-- WritePacket and ReadPacket do the reads and writes themselves) or asynchronous (async.go: packets
-- are gathered in a buffered writer that a goroutine flushes, and a read loop cuts what arrives into
-- packets, which it puts into a queue, from which ReadPacket takes them, or into the queues of streams,
-- stream.go). The server (server.go) runs the program's handlers on the packets of its connections, and
-- the client (client.go) does so on those of its one connection.
--
--   Metadata, BigEndian   pkg/metadata/metadata.go, pkg/metadata/pool.go: the header
--   Packet                pkg/packet/packet.go, pkg/packet/pool.go: packets and their pool
--   Errors                the errors of frisbee.go and of the other files, and errors.Is
--   Conn                  what the code uses of net.Conn, as a script of reads and writes
--   Sync                  sync.go
--   Bufio, Queue          what the code uses of bufio.Writer, and of the queue of
--                         github.com/loopholelabs/common
--   Async.State, Start    the state of async.go and stream.go, and NewAsync
--   Async.Framing         async.go, readLoop: how it cuts what arrives into packets
--   Async.Receive         async.go, readLoop: what it does with a packet, for streams and others
--   Async.Write           async.go: writePacket and flush
--   Async.Close           async.go and stream.go: closing, and the calls that the program makes
--   Async.Sound           the calls of async.go and stream.go in any order
--   Async.Session         two ends of a connection: what one writes and the other reads
--   Async.Flow            async.go: the flush loop, writers and a close as goroutines that share the
--                         connection's mutex
--   Async.Ping            async.go: the ping loop
--   Async.Waiting         async.go: close and the read loop as goroutines that share streamsMu
--   Server                server.go: handleSinglePacket, SetHandlerTable, handleListener
--   Server.Workers        server.go: handleUnlimitedPacket and createHandler, as goroutines
--   Server.Limited        server.go: handleLimitedPacket, as goroutines
--   Server.Shutdown       server.go: serveConn and Shutdown, as goroutines that share connectionsMu
--   Server.Setup          server.go: NewServer, the functions that set it up, Start and serveConn
--   Client                client.go: handleConn
--   Client.Setup          client.go: NewClient, Connect, Close, Raw and the other methods
--   Options               options.go
--   Connect               async.go and sync.go: ConnectAsync, ConnectSync and the methods for TLS
--   Dialer                internal/dialer/dialer.go
--   Prelude, Concrete     shared names and lemmas; a concrete buffer and queue, for the tests
--
-- How code and model correspond. A function of the code has the name of its definition, in lower
-- case; a method takes the state and returns it. Bytes and machine words are natural numbers, with
-- ranges as hypotheses where they matter. Code that is not in the repository is a parameter with
-- documented behaviour as laws (BufferOps for polyglot.Buffer, QueueOps for the queue, what a pool
-- hands out, the capacities that append chooses, what dialling and listening come to), or, for net.Conn
-- and bufio.Writer, a small model of what the code relies on. A read is a script of chunks and errors,
-- which the theorems let be cut in any way. A mutex makes a call one step; what another goroutine may do
-- in between is an argument (`observed`: a failing call finds the connection closed), and where the
-- order of steps is the point (Flow, Waiting, Workers, Limited, Shutdown) the goroutines are a relation
-- between states, with one constructor for each thing that one of them does between two points where
-- others can come in. In Close, a call that waits for the connection's goroutines is taken to have
-- waited. Go maps are association lists; pointers to streams are places in a list; functions that the
-- program sets are numbers, except for handlers of packets. The maximal content length is an argument,
-- as it is a variable of the code. A read may return bytes together with an error; a theorem on all that
-- is read from a connection takes it that such a reader returns no more bytes, and the same error, from
-- then on, and one on how the loop ends takes nothing. `Push` of a queue is taken not to wait, so that the
-- capacity given to `NewCircular` is not modelled, and the concurrency of the server is a number without
-- the bound of a `uint64`. The calls of the program on a connection (Async.Sound) may come in any order; a
-- close that a failing call meets is finished right behind it.
--
-- Fuel. The read loop runs on fuel; as many rounds as there are bytes, and two more, are enough, since
-- each round takes a header from what arrives or is the last. The loop that grows the read buffer
-- runs on the wanted size as fuel, which is enough as every capacity that append gives is larger than
-- the one before. The loop of the dialer runs on the number of attempts that are left.
--
-- Not modelled: local and remote addresses, contexts, logging, deadlines as times, and tickers; the
-- read loop, the flush loop and the goroutines of the server in one relation.
pub mod Prelude
pub mod BigEndian
pub mod Metadata
pub mod Errors
pub mod Packet
pub mod Conn
pub mod Concrete
pub mod Sync
pub mod Queue
pub mod Bufio
pub mod Async
pub mod Server
pub mod Client
pub mod Dialer
pub mod Options
pub mod Connect
