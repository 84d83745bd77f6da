-- ===== src/Lib.antt =====
-- A verification library of rtMessage: the message bus of RDK, a router process (rtrouted.c) and the
-- library that its clients link.
--
-- A client writes frames on a socket: a header (rtMessageHeader.c, over rtEncoder.c) and a payload.
-- The router collects the bytes of each client in a read buffer, decodes the header, and hands the
-- frame to the handlers of the routes that its routing tree (rtRoutingTree.c) finds for the topic.
-- Some topics are the router's own: they subscribe, register aliases and unsubscribe.
--
-- Error            rtError.h, rtError.c: the codes, rtErrorFromErrno; Error.Texts has rtStrError and
--                  the last errors of the threads
-- Encoder          rtEncoder.c: integers and strings in network byte order
-- Header           rtMessageHeader.c: Init, Encode, Decode (a monad over the header and the bytes that
--                  are left, in which a read beyond the buffer is a result)
-- Client           rtrouted.c: rtConnectedClient_Init, Reset and Read as functions of the client's
--                  state and of what recv returned
-- Routing.Tokens   rtRoutingTree.c: tokenizeExpression
-- Routing.Forest   rtRoutingTree.c: topics, getChildByName, optimizeTopicsBackpropagate,
--                  removeRouteFromTopicTree. Topics and routes have numbers for addresses, so that
--                  the lists of pointers between them are lists of numbers.
-- Routing.Tree     rtRoutingTree.c: AddTopicRoute, GetTopicRoutes, GetRouteTopics
-- Routing.Removal  rtRoutingTree.c: RemoveRoute, RemoveTopic
-- Routing.Resolve  rtRoutingTree.c: ResolvePartialPath, LogStats
-- Router           rtrouted.c: AddRoute, AddAlias, ClearRoute, ClearClientRoutes, OnMessageSubscribe,
--                  OnMessageHello, the list of registered components, and which routes a message goes to;
--                  Router.Forward has ForwardMessage and SendMessage, Router.Discovery the discovery requests,
--                  Router.Responding what handlers send, Router.Handlers OnMessage from the bytes of
--                  a message to the responses, and Router.Handlers.Dispatch rtRouter_DispatchMessageFromClient
-- Connection       rtConnection.c: listeners, aliases, callbacks, requests; Connection.Stream has ReadUntil,
--                  Connection.Reading has Read, Connection.Sending has SendInternal, Connection.Nested the
--                  wait of a request in the reader thread, Connection.Reconnect the loop that connects and
--                  the registrations after it, Connection.Calls the functions that send a message or a
--                  response, and Connection.Exchange SendRequestInternal with its rounds
-- Socket           rtSocket.c: addresses as text; what the C library and the interfaces answer is an
--                  argument
-- Vector           rtVector.c: the growing array, with its cells and what realloc grants
-- LinkedList       rtList.c: the fields of the items by address; LinkedList.Search has the loops
-- HashMap          rtHashMap.c: buckets as sequences of nodes, the growing and shrinking, string keys
-- Time             rtTime.c: Later, Elapsed, Compare
-- ThreadPool       rtThreadPool.c: timeAddMS and timeGetElapsed; ThreadPool.Workers has the queue of tasks
--                  and the worker threads as steps
-- Base64           rtBase64.c
-- Json             the operations of cJSON and the laws that its documentation gives, as parameters
-- Message          rtMessage.c over Json; Message.Items has the topic, the arrays and the binary data
-- Semaphore        rtSemaphore.c: posts, signals and waits as steps of threads
-- Retainable       rtRetainable.c, rtAtomic.h: retain, and release as two steps
-- Examples         the theorems at concrete inputs
--
-- Numbers are natural numbers; an int or an int32_t is its bit pattern below 2 ^ 32, and sums of such
-- are reduced to that width where the code computes them. A byte is a number, a C string is the list
-- of its bytes without the terminator, an array is the list of all its bytes. The socket, the
-- allocator and the clock are arguments. A use of a pointer to something that was freed, and an access
-- outside an array, is a result of its own.
--
-- Fuel: tokenize_loop has the length of the expression, of which each round takes at least one byte;
-- split_expression-join shows that it is enough for expressions of names. clear_loop has the number of
-- routes, of which each round takes one away or goes past one, and the theorem about it shows that this is
-- enough. The loops over a linked list take any fuel, and the theorems about them ask for more than the
-- list has items.
--
-- Not modelled: creating and destroying a connection, its socket and its threads; rtCipher.c,
-- rtBuffer.c, and what only reads or writes sockets, files and logs, with the main loop and the
-- configuration of rtrouted.c. The compile-time options MSG_ROUNDTRIP_TIME, WITH_SPAKE2, ENABLE_ROUTER_BENCHMARKING and
-- ENABLE_ROUTE2_QUICK_GET_OPTIMIZATION are off, as by default, and the traffic monitor of the router
-- is off.
pub mod Prelude
pub mod Error
pub mod Encoder
pub mod Header
pub mod Client
pub mod Routing
pub mod Vector
pub mod Time
pub mod ThreadPool
pub mod Base64
pub mod Json
pub mod Message
pub mod Router
pub mod Socket
pub mod Examples
pub mod LinkedList
pub mod Connection
pub mod HashMap
pub mod Retainable
pub mod Semaphore
