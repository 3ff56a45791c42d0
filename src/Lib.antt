-- ===== src/Lib.antt =====
-- Verification of reckoning, a C++ library of an event loop, buffers, sockets, serialization,
-- command lines and promises.
--
-- The parts that are modelled, with paths from the repository's root:
--
-- include/buffer: Buffer is a block of bytes with a size in use (Buffer.h: assign, append,
-- setSize, addSize, concat); the memory is a list, whose length is max(). Files Buffer.antt and
-- Buffer/Contents.antt, Buffer/Concat.antt. Slots is the thread's pool (Pool.h: get, concat),
-- whose buffers are counted by their holders. Builder writes strings (Builder.h). Wait collects
-- buffers until a needle is found (Wait.h: feed); it takes its buffers from the interface of
-- Buffer/Source, which the pool fills.
--
-- include/serializer, lib/serializer: Serializer.antt has the constructors, close, read, write and
-- realloc, with the buffers from the same interface; Serializer/RoundTrip reads back what was
-- written.
--
-- include/util/Base64.h: Util/Base64.antt is the loop of encode on its cells;
-- Util/Base64/Reference is the text of RFC 4648 and its decoder.
--
-- include/args: Args/Parser.antt is the state machine of Parser::parse, one function for each case
-- of its switch, Args/Number.antt is guessValue, Args.antt the access to the values.
--
-- include/event/Loop.h, lib/event/Loop_epoll.cpp: Event/Timers.antt has the timers as names into a
-- store and the sorted list of the loop: addTimer, stop, isActive, the wait of execute and the
-- pass that fires. Event/Fds.antt has the handlers of descriptors: addFd, updateFd, removeFd,
-- their registration and processFd. Event/Queue.antt has the queue of events: send, post, exit and
-- "execute all events". include/event/Signal.h: Event/Signal.antt has connect, disconnect and
-- emit, on a store of connections.
--
-- lib/event/Loop_kqueue.cpp, include/event/Timeval.h: Event/Kqueue.antt has the wait with its
-- timespecs, the changes of filters for updated descriptors and the events of kevent;
-- Event/Epoll.antt has the calls of epoll_ctl and the events of epoll_wait, and
-- Event/Epoll/Dropped is about which of the events either loop handles.
--
-- include/net/TcpSocket.h, lib/net/TcpSocket.cpp: Net/TcpSocket.antt has what is still to be
-- written and processWrite, plain and over TLS; Net/TcpSocket/Opening.antt has how a connection
-- that is tried over IPv4 and IPv6 is opened; Net/TcpSocket/Reading.antt is read and
-- Net/TcpSocket/Reading/Events.antt the events of socketCallback. A change of state, an update of
-- a descriptor and its removal are notes; handlers of the state signal do not run inside a step.
--
-- include/then/Then.h: a promise is a name into a store (Then/Promise.antt: the overloads of then,
-- and fail; Then/Void.antt those of Then<void>). Then/Steps.antt has resolve, reject and the
-- continuations, and runs their calls, and then what they posted to the loop, in order.
-- Then/Steps/Chains and Built are about chains of then, Late about a then on a settled promise,
-- Elsewhere about another thread, Inner and Posts about a functor that returns a promise.
--
-- include/net/HttpClient.h, lib/net/HttpClient.cpp: Net/HttpClient/Upload.antt has write, endWrite
-- and the read callback, Net/HttpClient/Reply.antt the header callback with its regular expression
-- written out, and Net/HttpClient/Headers.antt the headers. Net/HttpClient/Multi.antt has the
-- callbacks for sockets and the timer, on the descriptors of Event/Fds.antt and the timers of
-- Event/Timers.antt, and Net/HttpClient/Multi/Transfers.antt init and the end of a transfer, as
-- the calls of libcurl that they make.
--
-- include/net/WebSocketClient.h, lib/net/WebSocketClient.cpp: Net/WebSocketClient.antt has the
-- callbacks of wslay, mergeReadBuffers, write and close, Net/WebSocketClient/Upgrade.antt
-- attemptUpgrade, which compares with the text of Util/Base64.antt.
--
-- How the code corresponds to the definitions: a failed assertion and a read past the end of a
-- container are none; a size_t wraps at 2^64 where the code relies on it; a count of milliseconds
-- is its 64 bits, and an int that is negative is none; times are nanoseconds of the steady clock.
-- What the system, OpenSSL, libcurl, wslay or a user's function does is an argument: the answers
-- to read and write calls come as lists, the functions of a signal say which connections they
-- disconnect and the events of a loop which they post, and strtod and SHA-1 are parameters. Fuel
-- stands in the loop over the registered handlers, given one unit for each handler, of which every
-- round takes at least one; in that of write(data, bytes), given at least one unit for each byte,
-- of which every turn takes at least one; and in the loops that read, where one unit more than
-- there are buffers to come is enough; and in the search for a line of a header, which has one
-- unit more than there are bytes. The loop that executes events has fuel as well, since it goes on
-- for as long as events post events; what is shown of it holds for any fuel. The calls of promises
-- have two units of fuel for each functor of a chain, and a few more that each theorem counts,
-- with any surplus.
--
-- Not modelled: the wrappers of system calls and libraries (Path, Resolver, TcpServer, UriParser,
-- image, Log, Random), which have little logic of their own; threads, since the loop's lists are
-- guarded by one mutex.
pub mod Common
pub mod Buffer
pub mod Serializer
pub mod Util
pub mod Args
pub mod Event
pub mod Net
pub mod Then
