-- ===== src/Lib.antt =====
-- libjaypea: a C++ library for web servers, JSON and the programs on top of them.
--
-- A server (cpp-source/tcp-server.cpp) owns the sockets and gives the bytes that it reads to a
-- callback. `HttpApi` (cpp-source/http-api.cpp) is such a callback: it parses the request with
-- `Util::parse_http_request` (cpp-source/util.cpp) into a `JsonObject` (cpp-source/json.cpp), finds
-- the session and the route, and answers. `Websocket` (cpp-source/websocket.hpp) is another: it
-- answers a handshake with the same request parser and then reads frames. `SymmetricEncryptor`
-- (cpp-source/symmetric-encryptor.cpp) puts numbered and encrypted packets on a socket.
-- `TlsEpollServer` (cpp-source/tls-epoll-server.cpp) is a server whose reads and writes go through
-- OpenSSL, `TlsClientManager` (cpp-source/tls-client-manager.cpp) asks other servers, and
-- `PgSqlModel` (cpp-source/pgsql-model.cpp) keeps the objects of an application in a database.
-- `EventClient` (cpp-source/tcp-event-client.cpp) holds many connections to servers. The programs
-- under cpp-source/examples put these together: a web application with a chat and a game (jph2), a
-- remote shell (com, comd), a key-value server (ponal-server), and a front of a provider
-- (bwackwat).
--
-- The files:
--   Base       bytes, dictionaries, tables of descriptors, chains of cells, and `Run`, the
--              outcome of a loop over a `char` buffer: a result, a read outside the buffer, or no
--              fuel left.
--   Json       `JsonObject`: the data (Json), `escape` and `deescape` (Json/Text), the pointer of
--              `parse` (Json/Cursor), `parse` (Json/Parse), `stringify` (Json/Stringify) and the
--              accessors (Json/Access). Json/Rounds, Parts, Nested and Normal lead to
--              Json/RoundTrip; Json/Faults has the inputs on which `parse` fails.
--   Util       `url_encode` and `url_decode` (Util/Url), `replace_all` and the prefix tests
--              (Util/Replace), `parse_http_request` (Util/Http, with Requests and Faults), and
--              `parse_arguments` (Util/Arguments, with Apart).
--   Websocket  `create_frame` and `parse_frame` (Websocket/Frame, Masking), `recv`, `send` and
--              `accept_continuation` (Websocket/Session, with Log and Laws).
--   Encryptor  `encrypt` and `decrypt` (Encryptor/Codec), `send` and `recv` (Encryptor/Packets, with
--              Size and Laws).
--   HttpApi    `on_read` behind the request parser: the session (HttpApi/Identity), the checks of
--              a route (HttpApi/Admission) and the answer (HttpApi/Handler); Captcha, Rate,
--              Exceptions with Caught, and Known are about them. HttpApi/Paths, Pages and Chunks
--              have the path of a file, the parameters of a page and the sending of a cached
--              file; HttpApi/Files has the choice of a file and the cache, HttpApi/Routes the routes.
--   EpollServer  `EpollServer::run_thread`: the state of a thread (EpollServer), its connections
--              (EpollServer/Clients), new ones (Accept), the loop over the events (Events), and
--              `recv` (EpollServer/Sockets).
--              Pairs, Sound and Steps lead to Runs, and Deaf is about a lock that is taken.
--   TlsEpollServer  `send`, `recv` and `accept_continuation` (TlsEpollServer/Calls) with their end
--              (Calls/Ends), and the objects of OpenSSL (TlsEpollServer/Clients, Once).
--   SymmetricEpollServer  `send` and `recv` with the numbers of each connection; Peers has what
--              the clients read.
--   SymmetricTcpClient  `communicate`, with Exchange.
--   DistributedNode  `set_ddata` and the callback of the node's server, with Answers.
--   Queue, Stack  cpp-source/queue.hpp and cpp-source/stack.hpp over a store of nodes, with Linked,
--              Stored, Fifo and Lifo.
--   TlsClient  the requests (TlsClient), their addresses (TlsClient/Target) and the reading of an
--              answer (TlsClient/Reading).
--   PgSqlModel  the columns and errors (PgSqlModel), rows as JSON (PgSqlModel/Rows), the text of
--              the statements (PgSqlModel/Statements, with Lists) and the operations
--              (PgSqlModel/Operations, with Guards).
--   EventClient  `add`, `close_client` and `run`, with `send` and `recv` (EventClient/Plain);
--              Looks, Counted and Over are about the loop.
--   RemoteShell  the server cpp-source/examples/comd.cpp with cpp-source/shell.hpp, the client
--              cpp-source/examples/com.cpp (RemoteShell/Com), and the two with each other
--              (RemoteShell/Conversation, with Phases and Order).
--   Jph2       cpp-source/examples/jph2: the tables (Jph2), the handlers of messages, threads and
--              points (Jph2/Records) and of users (Jph2/Users), with Owners, Creators and Grants;
--              the chat (Jph2/Chat, with Tidy); and the game (Jph2/Tanks), its movement and
--              collisions (Tanks/Motion, Tanks/Collision), with Whole.
--   Ponal      cpp-source/examples/ponal-server.cpp, with Map and Deaf.
--   Redirect   `get_redirection_html` of cpp-source/util.cpp, and the server of
--              cpp-source/examples/jph2/http-redirecter.cpp.
--   Bwackwat   the requests and routes of cpp-source/examples/bwackwat.cpp, with Texts.
--   Tests      runs on concrete inputs.
--
-- A `std::string` and a `char` buffer are lists of bytes, and a buffer ends where the list ends: a
-- read behind the terminating zero is `overrun`. An `unordered_map` is an association list that is
-- iterated from its front, since the source relies on no other order. A pointer to a child of a
-- `JsonObject` is the child itself. The handlers of messages, threads and points of
-- cpp-source/examples/jph2 put the `id` of the token also under the values of the request; it
-- is only read from there on, and freed with the request, when the token, which is never freed, is
-- no longer used.
--
-- Loops over text run on fuel. One unit for each byte of the text is enough where the loop
-- returns; where a theorem says that a loop runs out of fuel, it does for every amount. Numbers
-- are natural numbers with the casts of the source written out; counters of messages are not
-- bounded by the size of an `int`. The rounds of a loop that runs as long as the program are a
-- list: a theorem about any list holds after any number of rounds.
--
-- What the operating system, OpenSSL, Crypto++ and pqxx do is a parameter: the outcome of reads
-- and writes, the events of epoll, the ciphers, the hashes, the answers of the database and the
-- clock. A theorem that relies on the ciphers has their documented laws as a hypothesis. Signals,
-- threads, files and printing are left out. `HttpApi` is taken as it is built without DO_DEBUG.
-- The arithmetic of `double` is a parameter of the game. Handlers that other threads run at the
-- same time take turns here; where the source shares data without a lock, that is left out.
-- Not modelled: the making of listening sockets, the start of threads, the simple clients and
-- servers, which only call the system, the exchange between nodes, and the example programs that
-- are not named above; cpp-source/examples/pgsql-provider.cpp uses a constructor of `PgSqlModel`
-- that there is no more.
pub mod Base
pub mod Bwackwat
pub mod Jph2
pub mod Json
pub mod Util
pub mod Websocket
pub mod Encryptor
pub mod HttpApi
pub mod Redirect
pub mod RemoteShell
pub mod DistributedNode
pub mod EpollServer
pub mod EventClient
pub mod PgSqlModel
pub mod Ponal
pub mod Queue
pub mod Stack
pub mod SymmetricEpollServer
pub mod SymmetricTcpClient
pub mod TlsClient
pub mod TlsEpollServer
mod Tests
