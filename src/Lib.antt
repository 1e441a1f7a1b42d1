-- ===== src/Lib.antt =====
-- Campiello, a peer to peer file sharing program for Haiku: traghetto, the protocol with its daemon, from
-- the bytes on the wire to the file server; fondamenta, the client; and the messages of bricola, the
-- discovery of peers.
--
-- Two nodes exchange frames over a byte stream. A frame is a header of 12 bytes with a type, a request
-- id and a payload; the payload is a CBOR map. A message is encoded to a payload, the payload to a
-- frame, the frame to bytes; the other side feeds the bytes it receives to an incremental parser and
-- decodes the payload of each frame that the parser yields. A server puts a gate in front of the handler
-- of a connection: the first frame must be a HELLO with the fingerprint that TLS authenticated, and the
-- pairing must admit it, from the store of pinned peers or by asking the user at a limited rate. Behind
-- the gate the file server turns requests into system calls below the shared root. A client asks through
-- a backend for each peer; the router sends a path to the backend of its peer, which the connection
-- manager opens. Nodes announce themselves and ask for each other by multicast DNS messages.
--
-- Files, with the code they are about (paths from the repository's root, below src/traghetto unless they
-- begin with src):
--   Common         shared names and lemmas: Boolean tests, lists, bits, int64 values, text as bytes.
--   Wire/Word      big endian words, the byte loops of wire/Cbor.cpp and wire/FrameCodec.cpp.
--   Wire/Cbor      CborWriter and CborReader of wire/Cbor.cpp. Writer has one function per write, the
--                  bytes it appends. Monad has the reader's state (buffer, position, error) and the
--                  sequence of calls that ends at the first `return false`; Reader has ReadHead, Peek,
--                  one function per read, and Skip. Reads, Head, Item, Rounds and Skip prove what the reads
--                  do on written bytes; Safe and Ends what they do on any bytes.
--   Wire/Frame     Frame, EncodeFrame and FrameParser of wire/Frame.h and wire/FrameCodec.cpp;
--                  MessageType has the numbers of the message types.
--   Wire/Fields    the loop over a map's entries that every payload decoder has, with the fields read
--                  once and the test that the mandatory ones were there.
--   Wire/Arrays    the arrays inside payloads, with their limits; Wire/Sizes, how long payloads get.
--   Wire/FileOps   OPEN, READ, WRITE and CLOSE of wire/FileOps.cpp; Wire/Attributes, the sets of
--                  wire/Attributes.cpp and, with Wire/AttrOps, the messages of wire/AttrOps.cpp;
--                  Wire/Listing, STAT and LIST; Wire/Handshake, HELLO and WELCOME; Wire/Error, the
--                  ERROR reply; Wire/Namespace, MKDIR, RENAME, TRUNCATE and UNLINK; Wire/Query, the
--                  messages of live queries of wire/Query.cpp. One record of
--                  fields and one dispatch per message; RoundTrip or Messages and Bounds prove what
--                  decoders do on encoded and on any payloads, Frames puts them in the envelope.
--   Transport      Connection of transport/Connection.cpp: Send with WriteAll, Receive with ReadMore,
--                  over lists of what the socket's send and recv return.
--   Trust          Fingerprint, tls/Fingerprint.cpp; TokenBucket, trust/TokenBucket.cpp; Store,
--                  trust/TrustStore.cpp with its text file; Pairing, Admit of trust/Pairing.cpp.
--   Dispatch       Client of dispatch/Dispatch.cpp; FrameWriter, the queue and the thread of
--                  dispatch/FrameWriter.cpp, as a step relation on their shared state; Serve has
--                  ServeConnection on this writer: a list of turns says what the thread and the pushes of
--                  the handler do between its own calls. Steps and Growth prove what a turn keeps,
--                  Delivery puts the loop against the client.
--   Server         GatedHandler of server/GatedHandler.cpp, between the wire and an inner handler.
--                  Posix has the system calls that a file server makes: a handler is a program of calls
--                  whose answers are arbitrary. FileServer, with child modules for paths, attributes,
--                  open files, the tree and queries, has the handlers of server/FileServer.cpp; its
--                  modules named Calls show what each handler asks of the system, Safety and Sessions
--                  put them together, Handles follows a handle from OPEN to CLOSE.
--   Fondamenta     src/fondamenta, the client. PeerBackend has the interface of backend/PeerBackend.h;
--                  CnpBackend, backend/CnpBackend.cpp, EndToEnd and Denied put it against the file
--                  server. Discovery has QueryAggregator, PathRouter and ConnectionManager of discovery;
--                  Names, Aggregation, Routing, Handles and Pinning prove what they promise. How a connect
--                  and a HELLO end is an argument of each call of the manager.
--   Bricola        src/bricola/mdns. MdnsWire has the names, records and messages of MdnsWire.cpp: Names and
--                  Onto read what was written, Messages whole messages. Responder has Responder.cpp:
--                  the announcement of a node and the answers to queries.
--                  Keys has the maps and sets with strings as keys; PeerTable, with Ingest, has
--                  PeerTable.cpp, what an observer is told as a list of events. Expiry is about Expire,
--                  Found, Watch, Kept, Touched and Observer about what an observer knows.
--   Tests          one run of each theorem at concrete data.
--
-- Bytes are natural numbers; theorems that need a byte to be below 256 say so. A `std::string` and a
-- `std::vector<uint8_t>` are lists of bytes. A uint64 sum, shift or cast keeps its remainder. A
-- function that returns false is `none` (decoders) or a reader state without a value.
--
-- Loops: Skip counts its pending items in a uint64 that it may raise, so `skip_loop` runs on fuel, one
-- more than the unread bytes, and every item takes a byte, so this is enough. A decoder's loop runs to the
-- count of the map header. ReadMore and Receive recurse on the list of what recv will return, WriteAll
-- on that of send; where the list ends, the call waits for the socket. DecodeNameInto runs on the levels
-- of pointers that its depth allows, and its loop on one round more than the bytes of the message, where
-- a round without a pointer takes a byte; DecodeTxt's loop runs on the bytes of the record.
--
-- The token bucket's double is modelled by an exact number of milliseconds of credit (tokens times the
-- refill period), without the rounding of floating point. What the clock shows, what the user answers
-- and whether a file can be written are arguments of a call.
--
-- The clock of the peer table is a natural number of milliseconds, whose sums stay in an int64_t; what
-- sscanf reads of an address is a parameter.
--
-- Not modelled: sockets, threads, TLS and windows, which are input and output; FUSE and SFTP, glue to
-- other libraries; the handlers of single devices, which are programs of their own.
pub mod Common
pub mod Wire
pub mod Transport
pub mod Trust
pub mod Dispatch
pub mod Server
pub mod Fondamenta
pub mod Bricola
pub mod Tests
