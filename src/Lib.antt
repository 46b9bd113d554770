-- ===== src/Lib.antt =====
-- A model of the document ferry server, doc_ferry_server/, and its clients, in their Linux build,
-- and of what the Windows build has in its place in cp_socket.cpp and cache_part.cpp.
--
-- The parts, and which file models which:
--   Cache       doc_ferry_server/src/cache_part.cpp: a buffer of fixed capacity, in memory or in a file
--   Cache/Clock  the `gettimeofday` that cache_part.cpp has in the Windows build
--   Wire        doc_ferry_server/inc/interface.h: the header of a message and its bytes
--   Hv          doc_ferry_server/src/hv.cpp: a message that is received or made
--   Virus       doc_ferry_server/src/virus_handler.cpp: the loops of `handle_read` and `handle_write`
--   Cp          doc_ferry_server/src/cp_socket.cpp: the wrappers of the socket calls
--   Cp/Windows  cp_socket.cpp in the Windows build: the wrappers that differ, and texts as wide texts
--   BaseSocket  doc_ferry_server/src/base_socket.cpp: handlers, the map that owns them, what closes them
--   Setup       the constructors of base_socket.cpp, socket_handler.cpp, virus_handler.cpp and
--               tcp_server.cpp, and the calls they make
--   Events      the events of base_socket.cpp with the overrides of socket_handler.cpp, virus_handler.cpp
--               and tcp_server.cpp
--   Select      base_socket.cpp's `do_select` and `loop`, and `main` of main.cpp
--   Client      client/test_client.cpp: the client that sends a file, and the one that sends what is typed
--   Upload      the file client and the server together
--   SampleServer  server/test_server.cpp: a sample, apart from the server, that greets each client
--   CharWchar   char_2_wchar/main.cpp: the conversions of Cp/Windows tried out
-- The modules Frame are about what each operation of their parent leaves as it was.
--
-- `main` makes a TCPServer, whose socket goes into the handler map, and goes round in `loop`. A round of
-- `do_select` watches the sockets of the map and hands each event to its handler: the server's
-- `handle_accept` makes a VirusHandler, whose `handle_read` feeds what `recv` gave to its HV, which stores
-- the value in a Cache, and queues an answer; `handle_write` sends the queue.
--
-- A function of the source has a definition of its name. One that changes `*this` or `*p_cache` returns
-- the new record beside its result. A computation may meet undefined behaviour (`Fault`), which the
-- theorems show or exclude. The C library is a parameter: `Stdio` for allocation and files, `Net` for
-- sockets; each theorem names what it relies on. Virtual calls branch on the class of the object.
--
-- The objects of a process are on a heap. One handler map is modelled, the one that `main` makes; it is
-- the only owner of its handlers. The use of a destroyed object, undefined
-- in C++, is no `Fault` here but leaves a mark, `stale`, and reads the fields that the object had: what is
-- said of a state with the mark holds as far as the freed memory is not used again.
-- What a new session holds before its constructor has run is a parameter of Events and Select.
--
-- The loops of `handle_read` and `handle_write` take fuel; a turn for each message, or more than the
-- length of each value, is enough. `cp_send_all` takes as much as there are bytes, and
-- `cp_clear_recv_buffer` a turn more. `loop` has no end, and runs for any number of rounds here; then
-- `main` destroys its server. The loops of the sample server and of the client that sends what is typed
-- also run for any number of rounds.
--
-- A buffer is the list of its bytes. Sizes are numbers; where the code subtracts `size_t`s or casts to
-- `int` the wrap is written out. The words of a header are taken to be little-endian in memory.
-- The sets of `select` have no bound, where an fd_set holds descriptors below FD_SETSIZE; the file client
-- is modelled for files below 2 ^ 31 bytes, whose size it casts to `int`.
-- In the Windows build Winsock, the clock and the conversions of the C library are parameters too
-- (`Winsock`, `LocalClock`, `Crt`). A `long` has 32 bits there.
--
-- Not modelled: logging, which only prints; the error codes of Winsock in base_socket.cpp, in place of
-- errno; the server under `#if 0` in main.cpp, which is not compiled; socket_exception, a copy of
-- cp_socket.cpp with a division by zero to see if it is an exception; and the experiments in the other
-- directories, which the server does not use.
pub mod Prelude
pub mod Cache
pub mod Wire
pub mod Hv
pub mod Virus
pub mod Cp
pub mod BaseSocket
pub mod Setup
pub mod Events
pub mod Select
pub mod Client
pub mod Upload
pub mod SampleServer
pub mod CharWchar
mod Scenarios
mod SocketScenarios
mod ServiceScenarios
mod LoopScenarios
mod FeedScenarios
mod WindowsScenarios
mod ClientScenarios
mod UploadScenarios
mod SampleScenarios
