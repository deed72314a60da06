-- ===== src/Lib.antt =====
-- The Bluzelle database library (bzapi): a client that sends database requests to a swarm of nodes
-- and accepts what an honest majority of them answers.
--
-- How the parts interact. A caller's operation (database/async_database_impl.cpp) becomes a message
-- that the dispatcher (database/db_dispatch.cpp) numbers, signs through the swarm and tracks. The
-- swarm (swarm/swarm.cpp) picks the nodes that the message goes to, by policy, and each node
-- (node/node.cpp) queues it for its connection. What nodes send back goes through
-- `handle_node_message`, which verifies it (crypto/crypto.cpp), to the dispatcher, which waits for
-- enough equal answers and then calls the handler of the operation. That handler completes the
-- response object (library/udp_response.hpp) for which the caller waits. Before that, `initialize`
-- (library/library.cpp) makes the swarm factory (swarm/swarm_factory.cpp), which learns of the swarms
-- and their nodes from the caller or from the ESR contract (utils/esr_peer_info.cpp), finds the swarm
-- that has a database and chooses one for a new database. The command line client (bzapi-cli/main.cpp)
-- calls the library for one command and exits.
--
-- The files:
--   Base        shared names, Boolean tests, lists, maps, decimal numbers, outcomes (done, threw,
--               undefined: an exception, or an assertion or a null pointer)
--   Messages    the protobuf messages (proto/*.proto) and constants (include/bluzelle.hpp); how they
--               become bytes is the parameter `Wire`
--   Crypto      crypto/crypto.cpp; OpenSSL is the parameter `OpenSsl`
--   Dispatch    database/db_dispatch.cpp: `Dispatch` is the table of waiting messages, and each
--               handler returns the new table and the calls it makes (`Effect`); Dispatch/Handlers has
--               the handlers of responses, errors and timers, Dispatch/Uuid has_uuid and
--               create_uuid, Dispatch/Run histories of events, and a request to a swarm of the Swarm model
--   Response    library/udp_response.hpp
--   Database    database/async_database_impl.cpp; Database/Operations has one function for each method,
--               Database/Sync those of database/database_impl.cpp, Database/Status `swarm_status`
--   Node        node/node.cpp: a step for each completion handler
--   Swarm       swarm/swarm.cpp; Swarm/Status has the status requests and responses, Swarm/Incoming
--               `handle_node_message`, Swarm/Report `get_status`, Swarm/History histories of events,
--               Swarm/Unread messages that a node reads
--   SwarmFactory  swarm/swarm_factory.cpp; SwarmFactory/Registry has the registry of swarms,
--               SwarmFactory/Discovery what reads it from the ESR
--   EsrClient   utils/esr_peer_info.cpp; EsrClient/Hex has its hexadecimal numbers and bytes,
--               EsrClient/Replies its parsers; the JSON library and HTTP are the parameter `Rpc`
--   Library     library/library.cpp: initialize and terminate, endpoints, and the asynchronous calls
--               with what their callbacks make of the factory's answers; Library/Calls has the
--               synchronous calls, which wait for those, Library/Logging the sinks of library/log.cpp
--   Http        utils/http_req.cpp: URLs and the request that is made of one
--   Cli         bzapi-cli/main.cpp: a `Program` prints and uses the library through the interface `Api`;
--               Cli/Options has the options, Cli/Handlers and Cli/Commands the commands, Cli/Main `main`,
--               and Cli/Process fills the interface with the library's model, up to the process's exit
--   Examples    concrete parameters and data, on which the theorems are tried
--
-- Numbers: nonces, sizes and ports wrap around at 2 ^ 64 and 2 ^ 16. Loops go over lists. Fuel there is
-- only for the digits of a number: the number and one more for the decimal ones (Base/Decimal), and 8
-- for the hexadecimal ones of 32 bits (EsrClient/Hex, EsrClient/Digits). A history of fewer than 2 ^ 64
-- events does not use up the nonces. A map is a list of its entries, in the order in which the
-- container iterates.
--
-- Threads: the strand of a node and the single thread of the io context make each handler one step.
-- What a response's `set_error` does is two steps (Response), between which its caller may go on. A handler that a step calls is an effect, and what it does comes as later
-- events; in the code it may run before the step is over.
--
-- Not modelled: the wrappers of boost (include/boost_asio_beast.hpp), which only forward; the exchange
-- with an HTTP server, the parsing of a command line and the text of its help, which boost does; what
-- LOG prints (the one log line that throws is: Swarm/Incoming); the node factory, which calls the
-- constructor of node; the resolving of a host's name when a node is made, which is taken to succeed;
-- and failures of the system's allocation and socket calls. Where an exception is caught elsewhere, only the fact that it was thrown
-- is kept, and not the state that it leaves; `Attempt` (Library) and `Ended` (Cli) keep it.
pub mod Base
pub mod Messages
pub mod Crypto
pub mod Dispatch
pub mod Response
pub mod Database
pub mod Node
pub mod Swarm
pub mod SwarmFactory
pub mod EsrClient
pub mod Http
pub mod Library
pub mod Cli
pub mod Examples
