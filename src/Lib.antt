-- ===== src/Lib.antt =====
-- Verification of the market data book: the path of an ITCH message from the block that the
-- network receives to the order book, and from the write-ahead log back to the book.
--
-- The parts and how they interact. `ItchParser::parse_block` (src/protocol/ItchParser.h) splits a
-- block into messages, logs each one (src/recovery/MmapLogger.cpp, src/utils/WalFrame.h,
-- src/utils/crc32.h) and pushes the orders into a ring (src/utils/spscqueue.h). A consumer thread
-- (src/main.cpp) pops them and dispatches them to the order book (src/book/LimitOrderBook.cpp),
-- which keeps its orders in a table (src/utils/StaticOrderMap.h) and its prices with orders in two
-- bitsets (src/utils/HierarchicalBitset.h). After a crash `run_recovery`
-- (src/recovery/RecoveryEngine.cpp) replays the log into a new book. Apart from this path,
-- `OuchClient` (src/network/OuchClient.h) sends orders to the exchange, and a `MagicBuffer`
-- (src/utils/MagicBuffer.h) keeps the bytes that a connection receives.
--
-- The files:
--   Common    shared names, lists, arrays, memory, byte orders, and the bits of 64-bit words
--   Bitset    HierarchicalBitset: Levels is its meaning as a set, Best its two searches
--   Spsc      SPSCQueue: Holds is the invariant, Calls whole calls against a FIFO, Threads the two
--             threads as a step relation, Threads/Safety what holds in every interleaving
--   OrderMap  StaticOrderMap: Probe the walks, Invariant the table in order, Laws and Assign the
--             table as a finite map
--   Itch      ItchOrderTypes.h: Decode the readers of ItchParser.h, Wire the format, Prefix the
--             independence of what follows a message
--   Book      LimitOrderBook: Orders its operations, Tracked, New and Best its bitsets. Chain and
--             Queued are its levels as linked queues, Laid the whole memory: each index of the pool
--             is free or in one queue, and the table knows the queued ones by id. Market is the
--             abstract book, queues of orders without pool, links, table or bitsets, and Represents
--             the relation of the two, with Entering and Leaving for the operations
--   Engine    the dispatch of main.cpp: Best is the best bid and offer after any orders, Refinement
--             the run of any orders against the abstract book, Top the best prices there, Telemetry
--             the buffers of measurements with Log their way to the file, Check the printed lines
--   Wal       the log: frames, checksum, reserve_frame
--   Parser    parse_block and log_payload: Messages and Stream blocks of whole messages, Pushed the
--             queue afterwards
--   Magic     MagicBuffer, and the bytes that EpollReactor receives into it: Ring the double
--             mapping, Contents the bytes to be read as a queue
--   Reactor   what EpollReactor does with the events of one epoll_wait: Stream the bytes of a
--             connection, Connections the connections that wait in the queue, Round the whole
--             round of run, Arrivals the two threads of the reactor as a step relation, with Order the
--             connections on their way
--   Multicast MulticastReceiver: Blocks is how simulate_packets cuts a file, Ring the
--             hand-over of frames to poll_simulation as a step relation, with Held what the frames
--             hold, Safety what holds in every interleaving, Progress the end of the file, and
--             Statistics the thread that prints the counter; Filter is the packet filter, with Wanted
--             the packets that pass, and Poll the rounds of poll, with Payloads what they hand over
--   Ouch      OuchClient: Session any sequence of calls, Drain the end of a pending write,
--             Packet the bytes of an order and their way to the kernel
--   Recovery  run_recovery: Frames what a written frame holds, Logged the log of a block, Ends how
--             a log may end, Replay the recovery loop on it, Report its report, EndToEnd the parts
--             together
--   System    run_mock_mode of main.cpp, the threads of the ring, the parser, the queue, the log and
--             the consumer together, as a step relation: Kept the orders on their way, Alike the log
--             apart from the queue, Blocks the blocks of the file, Running what holds in every
--             state, Parsing and Reached that the steps keep it, Recovered what that says of the log and the book, and Progress the end of the
--             program's work
--   Resources what constructors, destructors and move operations open, map and give back, with an
--             answer of the kernel for each call: TcpSocket with Owned, any lifetimes of sockets,
--             Receiver, Buffers (MagicBuffer and StaticOrderMap) with Pages, the rounding of sizes,
--             Files (MmapLogger and RecoveryEngine), Perf (TelemetryEngine), Reactor with Leaves what
--             its constructor leaves behind, and Moves, the move operations of three classes
--   Tests     the theorems at concrete inputs
--
-- The state of each component is a record with the fields of the class, each operation a function
-- with the name of the method. Machine words are naturals, with the remainder by 2 ^ 32 or 2 ^ 64
-- written where the code may wrap. Arrays and memory are functions from an index. A pointer into a
-- table or a file is an index. A call that throws gives the exception and the state at the throw.
--
-- Bounds and fuel. `parse_block` takes the number of rounds that are left: one round for each
-- message and one more is enough on a block of messages, and no number is enough for a type of
-- length 0. `run_recovery` takes the number of frames in the mapping, behind which it would read.
-- The ring has 2 ^ k slots with k < 64, the order table 2 ^ k buckets, 2 ^ 22 in the book. Ticks
-- are below 64 ^ 3. A book's pool has at most as many orders as its table has buckets, 2 ^ 22, so
-- that the table never is full.
--
-- Parameters: the two checksum instructions, the time stamp counter, the aligned size of the
-- kernel's frame header, the page size, the kernel's answers to its calls, and the handler of the
-- reactor's bytes.
--
-- Not modelled: what system calls are given beside descriptors, addresses and lengths, and what they
-- do beside opening, mapping and giving back; the move constructor of
-- src/network/EpollReactor.h, which leaves references without a value; the counters of the
-- processor and the statistics of the kernel; the pinning of threads; memory orders weaker than the
-- interleaving of the threads' accesses. In System a call on the queue is one step, which Spsc takes
-- apart, and so is the frame that a message leaves in the log.
pub mod Common
pub mod Bitset
pub mod Spsc
pub mod OrderMap
pub mod Itch
pub mod Book
pub mod Engine
pub mod Wal
pub mod Parser
pub mod Recovery
pub mod Magic
pub mod Multicast
pub mod Ouch
pub mod Tests
pub mod Resources
pub mod System
pub mod Reactor
