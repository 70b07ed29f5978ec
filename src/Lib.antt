-- ===== src/Lib.antt =====
-- SmallHttpServer: a server that sends files over HTTP, with and without TLS, from twenty threads.
--
-- The main thread of main.cpp waits in the class Server for a connection, which an Acceptor makes
-- into a socket, and puts it on a ThreadSafeStack. Each thread runs the function Worker: it takes a
-- connection from the stack, reads requests from it, parses them, and answers each GET with a file.
--
-- The files and the code that they model:
--   Exceptions    Exceptions.h, and results that may be exceptions
--   Run           computations on a state that may throw, or run out of fuel
--   Text          std::string, and the type Buffer of Buffer.h
--   Logger        Logger.h and Logger.cpp; Logger/Class is what the header declares
--   Daemon        DaemonHelper.h
--   Http/Packet   struct Packet of HTTPPacket.h
--   Http/Parser   namespace HTTPPacket of HTTPPacket.cpp: ExtractField, IsBlankLine, Parse, Split
--   Http/Message  namespaces HTTPRequest and HTTPResponses of HTTPPacket.cpp
--   Http/ContentType  namespace FileHelper of HTTPPacket.cpp
--   Http/Namespaces  the namespaces of HTTPPacket.h as interfaces with laws, and those of
--                 HTTPPacket.cpp as their implementations
--   Net/Read, Net/Write  the templates Read and Write of SocketHelper.h
--   Net/Socket    the class Socket of Socket.h, as an interface with laws
--   Net/Connection  ReadPacket and WritePacket of ClientSocket.cpp and TLSSocket.cpp: Read and Write
--                 fill the interface
--   Net/Sockets   the classes ClientSocket and TLSSocket as implementations of Socket: their calls on
--                 the descriptor go to a trace, and what is read and written to a stream
--   Net/ClientSocket, Net/TlsSocket, Net/TlsContext, Net/ServerSocket, Net/Acceptor, Net/Server
--                 the classes of those names; Acceptor is in SocketHelper.h and SocketHelper.cpp.
--                 The modules Class below them are the headers' classes as interfaces with laws,
--                 which the functions of the .cpp files fill
--   Stack         ThreadSafeStack.cpp, and Stack/Class the class of ThreadSafeStack.h
--   Options       Options.h and Options.cpp, and Options/Class the class with its getters
--   Worker/Process  Commander::ProcessGET of Worker.cpp
--   Worker/Serve  the function Worker of Worker.cpp
--   Worker/Handler  its handler
--   Program       CreateThreads and the loop of main.cpp, with threads whose rounds are single steps;
--                 Program/Setup and Program/Main are what comes before the loop, and the handler
--   Threads       the same, with the threads interleaved between any two looks at the stop flag: the
--                 signal, the main loop, the joins, the end of the block and an exception that leaves
--                 it. Threads/Lifecycle is the abstract program that it refines, Threads/Rounds
--                 compares it with Program, and Threads/Whole is main from its first line to its last
--   MainTests     mainTests.cpp with the tests of Tests/Tests.h and TestTLSCreating; the three tests
--                 in which two threads talk through the network are arguments
--   Tests         the theorems at concrete inputs
-- A function keeps its name, in snake case; a constructor is `create`, a destructor `destroy` or
-- `close_socket`.
--
-- Parameters. recv, send, SSL_read and SSL_write are a record with laws (Net/Transport): a call
-- hands over the next bytes of a stream, at most as many as asked for. All other calls of the
-- operating system and of OpenSSL are in a trace, newest first, and what they answer is a
-- function of the trace (Net/System). The files are a function from names to contents. The clock is a
-- function of the number of its readings, and put_time one of the seconds. What
-- getopt answers is a list of keys, and what the code uses of the JSON library is a record of
-- functions. `stop k` is the answer of a thread's k-th call of stop_requested.
--
-- Loops. Read and Write run on fuel of two more than the buffer's length: every round but two
-- moves a byte at least. Split runs on the buffer's length: every round moves on by two bytes at
-- least. The worker's inner loop and the loop of WaitClients run
-- on fuel that the caller gives.
--
-- Not modelled: the copy of a JSON library; what SetNonblock and SetBlock do where there is no
-- O_NONBLOCK, as the constant FIOBIO that they then name does not exist; the lines that the parts
-- write to the log, although the functions that write them are; the rare failures of the allocation
-- of memory; a call of epoll_wait that waits for ever, as every call has an answer. An int that the
-- code computes is never near its bounds, since buffers are of 65535 bytes; it is a natural number.
-- A message to be sent is shorter than 2^31 bytes. In Program a worker's round is one step, as no
-- other thread sees what it does with its own connection; Threads does without that. What threads
-- do with a stack that an exception has destroyed is undefined, and no step.
pub mod Base
pub mod Exceptions
pub mod Run
pub mod Text
pub mod Logger
pub mod Daemon
pub mod Http
pub mod Net
pub mod Stack
pub mod Options
pub mod Worker
pub mod Program
pub mod Threads
pub mod MainTests
pub mod Tests
