-- ===== src/Lib.antt =====
-- Verification of the edge node: it receives FLV streams as RTP packets from a cloud node, puts the
-- tags together again, and serves them to players over HTTP-FLV and HLS.
--
-- The program's parts and their files. main.go reads packets from a UDP socket; parser/rtp/rtp.go
-- parses them; each stream has a queue (cache/RtpQueue.go) which puts them in order, asks the cloud
-- node over QUIC for those that are missing, and joins their payloads to FLV tags; a tag goes to the
-- cache of initial segments (cache/cache.go), to the writer of each client
-- (protocol/httpflv/writer.go), to the HLS source (protocol/hls) and to a file.
--
--   Prelude: tests on numbers, lists over the native numbers, the outcome of a piece of Go code
--     (`Run`: a result, a panic, a wait that does not end, or the rounds of a loop used up), slices
--     with what lies behind them up to their capacity, buffered channels, maps as association lists,
--     and what the code uses of the packages strings and path of Go on the bytes of a text.
--   Utils: utils/util.go. Utils/Seq has `FirstBeforeSecond` and the offset of a packet in
--     `Queue.Enqueue`, Utils/TagHead has `IsTagHead`.
--   Rtp: container/rtp and parser/rtp/rtp.go. Rtp/Parse is `Parser.Parse`; Rtp/Wire describes
--     the packets of RFC 3550 independently.
--   Flv: container/flv. Flv/Tag is tag.go, Flv/Packet is `Packet` of av.go with demuxer.go.
--   HttpFlv/Writer: protocol/httpflv/writer.go. The response is a `Sink`. Lifecycle follows a writer
--     through any order of the steps of the two goroutines that use it. Drop has `DropPacket`.
--   Cache/ArrayList: what the array list of the library gods promises; the queue takes it as a
--     parameter, and a list of the model has these properties.
--   Cache/Window: the abstract queue, a list of slots of which the first has a known number.
--   Cache/FlvRecord: FlvRecord.go, and the part of `extractFlv` that joins fragments.
--   Cache/Segments: cache.go.
--   Cache/Queue: RtpQueue.go. Slots has `Enqueue`, `isFirstOk`, `getHeadNil` and the loop of
--     `reshape`; Retransmit has `reshape`, `runQuic` and `Dequeue`; Extract has `extractFlv` and
--     `getDelay`; Receive has the body of the loop of `RecvPacket`; Print has
--     `PrintInfo`.
--   Quic: protocol/quic. The library quic-go is a `QuicLib`. Request has what passes over its streams.
--   Recording: utils/flv.go. The file is an `OsFile`; in File, which has the methods that move in the
--     file, a `SeekFile`.
--   Hls: protocol/hls. Align, AudioCache, Status and TsCache are align.go, audio_cache.go, status.go,
--     and cache.go with item.go; Source is source.go (Cuts has `cut` and the muxing of audio, Send has
--     `parse` and `SendPacket`); Server is hls.go. The library livego is a `Livego`.
--   Publishers: `Get` and `UpdatePublishers` of utils/util.go.
--   App: cache/App.go and main.go, with the part of a queue that the node sees. Streams has
--     `handleNewStream`, `handleNewPacket` and `NewQueue`; Alive has `CheckAlive` and `Close`;
--     Handler has `MyHttpHandler` of main.go and the handlers of protocol/httpflv/server.go, Routes
--     its `Serve`; Receive has the loop of `receiveRtp`; Serve has a round of `RecvPacket` on the state
--     of the node.
--     Invariant carries an invariant of the streams through every operation of the node.
--   Edge: the whole node, in which the calls of Cache/Queue and App are filled with the models of the
--     components that they reach: Hls, Recording, Quic and Publishers. Rounds has its steps, and Ended
--     what becomes of a source that has closed.
--   Client: http-client.go, a player; Start has what it does before it reads the stream.
--   Configure: configure/config.go, over a `Disk`.
--
-- How the code is modelled. A method takes the state and returns the new one; what it can do besides
-- is in `Run`. Bytes and machine integers are numbers: uint16, uint32 and uint64 arithmetic is written
-- out modulo its range, and counters of type int, which count packets, are numbers without a bound.
-- `|` of bytes that were shifted apart is their sum. A Go slice keeps the bytes between its length
-- and its capacity, since `b[lo:hi]` can reach them. A nil pointer is `none`, and its use a panic.
-- A client's writer is a pointer into a heap, since the queue and the client's goroutine share it.
-- `RecvPacket` runs in a single goroutine of its own and is the only one to call the methods below
-- it, so that its round is a function; the list of clients can grow between two rounds.
--
-- The loops of `RecvPacket` take an amount of fuel: each round takes a slot from the queue, so that
-- as many rounds as it has slots are enough for them. All other loops are by structural recursion on
-- a number of rounds that the source gives: the size of the list, or the distance to the slot.
--
-- A round of `CheckAlive` goes over the streams in an order that is given to it, as Go ranges over a
-- map in any order; the state machines of the node, of a source and of the HLS server have a step
-- for each round of a goroutine that returns (in the node also of a client's writer, whatever its
-- response does), and let the rounds run in any order. The digits of a
-- number in the name of a segment are computed with one unit of fuel more than the number.
--
-- What stands behind an interface: the array list (its documented behaviour as laws); the HTTP
-- response (`Sink`); the body of a response (`Body`); a file (`OsFile`, `SeekFile`); the library quic-go
-- (`QuicLib`); the library livego (`Livego`); the floats of a JSON document (`Floats`); as the
-- record `Node` of Cache/Queue, the calls that leave the queue: the request over QUIC (`GetByQuic`),
-- the size of the socket's buffer, the clock, the request for the list of publishers, and the
-- writing of the HLS source and of the recording, each by its pointer; and, as the record `Outside`
-- of App, what the node calls besides: the request for the statistics, the file of a recording,
-- the HLS source of a key (`GetWriter`), and the closing of the QUIC connection. Where a theorem
-- needs to know how these behave, it says so. Edge fills both records; there only the libraries and
-- the system (clock, socket, requests, `os.Create`) are parameters. A file is what has been written
-- through its handle: that two handles can stand for one file on the disk is not modelled.
--
-- Not modelled: log messages; locks; the opening of sockets; how the library flag reads the command
-- line; the headers of HTTP answers; the request that http-client.go builds; a size in the settings
-- that is negative; code that nothing calls (`Play`, `print`, and of a source `DropPacket`, `Close`
-- and `cleanup`). That two goroutines write to the tables of the node at the same time, which Go
-- leaves undefined, is not modelled either: rounds follow each other. Nor is what a queue still
-- does with the packets that are in its channel when it leaves the map.
pub mod Prelude
pub mod Utils
pub mod Rtp
pub mod Flv
pub mod HttpFlv
pub mod Cache
pub mod Hls
pub mod Recording
pub mod Quic
pub mod Client
pub mod Publishers
pub mod App
pub mod Edge
pub mod Configure
