-- ===== src/Lib.antt =====
-- Verification of UniServe libhttp, a C++ library of an HTTP server, a WebSocket server, a WebSocket
-- client and an HTTP client over Boost.Beast, Boost.Asio and libcurl.
--
-- Parts of the program, and the files that model them
--   HttpServer (inc/us/HttpServer.hpp, src/HttpServer.cpp). Session::processRequest calls
--   handleRequest, which splits the target, parses the query, runs the middlewares, looks for a
--   handler with findRoute and falls back on static files.
--     HttpServer/Query.antt     parseQueryParams, and the split of the target at `?`
--     HttpServer/Wildcard.antt  wildcardToRegex and matchPath
--     HttpServer/Routes.antt    RouteEntry, get, post, put, del, use, setStaticDirectory, findRoute
--     HttpServer/Request.antt   handleRequest and processRequest
--     HttpServer/Session.antt   Session: one connection, from its first read to the close
--     HttpServer/Listener.antt  Listener with the connections that it accepts, and the worker threads
--     HttpServer/Service.antt   from the registration of handlers to what a connection writes
--     HttpServer/Lifecycle.antt constructors, start, run, stop, the destructor, initAcceptor, the list
--     of sessions
--     HttpServer/Status.antt    showStatus and print_all_header_fields, as the texts that they write
--     HttpServer/Split.antt, Regex.antt, Beast.antt: what is used of boost::split, std::regex and
--     Beast's messages
--   WebSocketServer (inc/us/WebSocketServer.hpp, src/WebSocketServer.cpp). Sessions register with the
--   server when their handshake is accepted; the server sends through them; they call its handlers.
--     WebSocketServer/State.antt  Session's queue, the client registry and the methods on it, and the
--     handlers of the application
--     WebSocketServer.antt        the handlers of Session and the other methods, one function per method
--     WebSocketServer/Queue.antt  a session over interleavings of `send` and completed writes
--     WebSocketServer/Steps.antt  the server as a step relation: calls of its interface, new
--     connections, and completions of operations that are outstanding
--     WebSocketServer/Discipline.antt what is outstanding on the stream of each session, and the
--     order of its messages
--     WebSocketServer/Listener.antt   Listener with its server, as functions of what happens to them
--     WebSocketServer/Race.antt       `send` on the thread of its caller, in steps
--     WebSocketServer/Order.antt      the iteration order of the client registry
--     WebSocketServer/Lifecycle.antt  the constructors, start, stop and the destructor
--   WebSocketClient (inc/us/WebSocketClient.hpp, src/WebSocketClient.cpp). Its methods post functions
--   to the io_context of its thread; the completion handlers move it from state to state.
--     WebSocketClient/State.antt the state of Impl, the methods that callbacks call, and the callbacks
--     WebSocketClient.antt       the handlers of Impl and the other methods, one function per method
--     WebSocketClient/Runs.antt  runs: lists of calls and completions, in any order
--     WebSocketClient/Base.antt  WebSocketClientBase (inc/us/WebSocketClientBase.hpp) as a record of
--     operations, what WebSocketClient puts in it, and its contract
--   HttpClient (inc/us/HttpClient.hpp). A request sets the options of its handle, starts a transfer,
--   and gives the whole body to its callback.
--     HttpClient.antt           one function per method
--     HttpClient/Memory.antt    the objects of libcurl that a client makes, uses and frees
--   Below each part, Laws.antt and its fellows hold the proofs, and Tests.antt runs at concrete values.
--   Common.antt and Common/ hold what the parts share: text as lists of bytes, dictionaries as
--   association lists, decimal numbers.
--
-- How code corresponds to definitions
--   A method has the name of the function that models it, in lower case with underscores; a method
--   that changes its object returns the new object, and one that can throw returns an Option or a
--   Result. An asynchronous operation is a count or an entry of the state that says that it is
--   outstanding, and its completion handler a function of the result. Callbacks are functions on a
--   state `W` of the application; those of the WebSocket client and server are programs, which
--   call the object, look at what it answers, and return; those of the client can throw instead. A
--   session of the WebSocket server is a number into a store, as the registry and the operations
--   share the object.
--
-- Numbers and termination
--   The counter of client ids wraps at 2^64. All loops are structural recursions over the containers
--   and counts of the program, or over the list of events of a run, so no fuel is needed, with one
--   exception: decimal printing recurs on a bound, the number itself and one more, which is at least
--   the number of its digits.
--
-- Parameters
--   boost::split, ends_with, the reading of files, and Beast's requests and responses are
--   parameters with the laws of their documentation. A transfer of libcurl, and what the operating
--   system answers to a server that starts, are parameters without laws. HttpClient/Memory.antt
--   keeps account of libcurl's objects as its documentation says: curl_easy_init, and
--   curl_slist_append of a null pointer, give a new one, which is to be freed once and not used
--   behind that. std::regex is modelled on the fragment of the syntax that the patterns of
--   wildcardToRegex use, see HttpServer/Regex.antt.
--
-- Not modelled
--   Messages on the standard output other than those of HttpServer/Status.antt, TLS, the operating
--   system's threads, and locales other than "C". Callbacks throw only where they are handlers or
--   middlewares of the HTTP server or callbacks of the WebSocket or HTTP client; one of the
--   WebSocket server that throws, and a message handler that is an empty std::function, ends the
--   process. Those of the WebSocket client and server call the object that calls them, but do not
--   set its callbacks, start or stop it, and a sendCallback is not kept for later; each handler
--   and each call is one step, which other threads do not come between, with the exception of
--   WebSocketServer/Race.antt; intervals are not negative; the stack limits of std::regex and
--   running out of memory are left out. An unordered_map is iterated in the order of insertion,
--   with the exception of WebSocketServer/Order.antt. The bytes that an asynchronous write sends
--   are those of its message, although the program destroys the string that the buffer points to.
--   What a call of Asio or Beast does to other operations of a socket, such as ws.close, and
--   async_connect, which closes the socket first, shows only in the outcomes that these operations
--   complete with; the time limits that the client sets on its stream are left out.
mod Common
pub mod HttpServer
pub mod WebSocketServer
pub mod WebSocketClient
pub mod HttpClient
