-- ===== src/Lib.antt =====
-- simple-rpc, a C++ library for remote procedure calls: clients and servers exchange packets that they
-- build and parse in a Marshal, a buffer of bytes made of chunks.
--
-- The parts, from the bottom up. Integers of variable length (SparseInt) are the wire form of lengths and
-- of the types v32 and v64. A chunk is a window on a reference counted raw_bytes object, and several
-- chunks can be windows on the same one. A Marshal is a list of chunks: bytes are written at its end and
-- read from its front, and `read_from_marshal` passes bytes on by sharing chunks. Client and server read
-- packets from one Marshal and write replies to another.
--
-- The files:
--   Prelude          shared names, tests, lists and slices, integers and their patterns, bytes
--   Base/SparseInt   class SparseInt of base/basetypes.h and base/basetypes.cc; below it, the sizes, the
--                    round trips in the buffer, and on the wire where only the counted bytes arrive
--   Rpc/Buffer       struct chunk of rpc/buffer.h, and the store of raw_bytes (Buffer/Store) with the
--                    counts of RefCounted of base/basetypes.h; what each function returns and leaves
--                    (Buffer/Laws, Buffer/Writes) is stated with Returns (Buffer/Returns)
--   Rpc/Marshal      class Marshal of rpc/marshal.h and rpc/marshal.cc: one function per member function
--                    with the same name; the invariant is IsValid of Marshal/Chain
--   Rpc/Marshal/Slice  `read_from_marshal`
--   Rpc/Marshal/Send  `write_to_fd`, with `chunk::write_to_fd` of rpc/buffer.cc; what the kernel takes at
--                    each call is an argument
--   Rpc/Marshal/Receive  `read_from_fd`, with `chunk::read_from_fd`; the bytes that are there at each
--                    call are an argument
--   Rpc/Marshal/Bookmark  `set_bookmark`, `write_bookmark` and `get_and_reset_write_cnt`; where bytes stand
--                    in the store, and that writing moves none, is Marshal/Place
--   Rpc/Unbounded    class UnboundedBuffer of rpc/buffer.h and rpc/buffer.cc, the same functions again
--   Rpc/Stream       the operators `<<` and `>>` of rpc/marshal.h, on the functions of Rpc/Marshal; what
--                    the two operators of a type promise is the record Codec of Stream/Codec
--   Rpc/Packet       a packet of rpc/client.cc and rpc/server.cc: its size, and what is behind it
--   Rpc/Polling      PollMgr and PollThread of rpc/polling.cc, as compiled for epoll: the sets and the
--                    reference counts; Polling/Steps has the runs of a thread among its users
--   Rpc/Server       ServerTcpConnection of rpc/server.cc: replies and `handle_write`; Server/Requests has
--                    `handle_read` over TCP and UDP, Server/Arrival what it makes of a packet of a
--                    client, Server/Table the handlers and the open connections of a Server
--   Rpc/Client       Client of rpc/client.cc: requests, `close` and `handle_write`; Client/Futures has the
--                    Futures and the table of them, Client/Replies `handle_read`, Client/Pool ClientPool
--   Rpc/Sockets      `open_socket` and its callers of rpc/utils.cc; Client/Connect has `Client::connect`, and
--                    Server/Life `Server::start` and the loop that accepts
--   Rlog/Service     `RLogServiceImpl::log` of rlog/log_service_impl.cc; Service/History has the calls of it
--                    in sequence
--   Rlog/Qps         `RLogServiceImpl::aggregate_qps`
--   Rlog/Client      RLog of rlog/rlog.h and rlog/rlog.cc; Client/Sent has the calls of it in sequence
--   Rpc/Udp          UdpBuffer of rpc/marshal.h, and the UDP requests of Client
--   Base/ThreadPool  Queue and ThreadPool of base/threading.h and base/threading.cc, turn by turn;
--                    ThreadPool/Life has the threads of a pool among its users, up to the destructor
--   Base/RunLater    RunLater of base/threading.h and base/threading.cc, turn by turn
--   Base/Merged      MergedEnumerator of base/basetypes.h; the priority queue of both is Prelude/Least
--   Base/Strop       base/strop.cc; Strop/Words is what `strsplit` is compared with
--   Base/TimeStr     `time_now_str` of base/misc.cc
--   Base/Deadline    the deadline of `CondVar::timed_wait` and `Future::timed_wait`
--
-- Stateful code is a command, a function of the store that returns a result and the store afterwards, or
-- a fault: a `verify` or an `assert` that fails, or an access outside an object. A raw_bytes object is its
-- place in the store. The list of chunks of a Marshal is a list, in place of `head_`, `tail_` and `next`.
-- Integers of 32 and 64 bits are patterns below 2^32 and 2^64 or integers in range; `size_t` values count
-- bytes in memory and have no bound. The times of Rlog/Qps, a double of seconds in the code, are whole
-- microseconds. Where the code casts a pointer to look at the bytes of an integer,
-- the machine is little-endian.
--
-- Bounds. A round of the loop of `read` removes a chunk, or the loop ends at its next test: its fuel is
-- the length of the list of chunks and 2. The loop of `read_from_marshal` that shares has the length and 1,
-- and the function calls itself once at most, so that its fuel is 2. Running out of fuel is a fault, and
-- the results that state that a call returns exclude it.
--
-- The loops of `handle_read` take four bytes at least in a round: their fuel is the size of the content and 1.
-- The loop of `strsplit` has the length of the text and 1, that of MergedEnumerator the number of values.
-- The loops over the answers of the kernel, of epoll and of pthread_cond_timedwait follow the lists of these.
--
-- Code without the store of raw_bytes (PollThread, ThreadPool, the table of Futures) is a function into an
-- Option, in which `none` is a check that fails. Where a lock is held around the whole state that a function
-- uses, the function is one step; in PollThread what a function does under each lock is a step, and what it
-- does between the locks. The interleavings of PollThread and of ThreadPool are the orders of such steps.
--
-- The answers of the kernel for sockets are arguments too, and the open descriptors a list: what a function
-- opens it puts there, and what it closes it takes off.
--
-- Not modelled: system calls, logging and the test harness; the destructor of Server behind the end of its
-- loop; FutureGroup; the destructor of PollMgr; the locks, which wrap a compare-and-swap and
-- pthread; the Python binding.
pub mod Prelude
pub mod Base
pub mod Rpc
pub mod Rlog
