-- ===== src/Lib.antt =====
-- A verification library for client-server-db: a client that reports the state of its machine over
-- HTTP, and a server that stores the reports in a database and mails alerts.
--
-- The parts and their files:
--   * Messages, Wire: common/src/machine.pb.cc, the generated code of the messages that travel. A
--     record for each message; clear, merge_from, copy_from, merge_partial (the parser's loop over
--     `switch`), serialize and byte_size are the methods of these names. The protobuf runtime is the
--     parameter Wire.Runtime and the documented behaviour of it is Wire.Laws.
--   * ClientInfo: client/src/client_info.cpp, a module for each function: Memory (get_mem_info), Stat
--     (get_cpu_count, get_cpu_idle_value, get_cpu_idle_values), Process (get_process_info), and Report
--     (get_system_info, get_machine_info). A file of /proc is the list of its lines.
--   * Upload: client/src/server.cpp and the loop of client/src/client.cpp.
--   * Handler: the handlers of server/src/server.cpp. Startup: main of that file, with the server's
--     members as the record HttpServer; Serving has what the HTTP library does with them. System:
--     both programs, with main of client/src/client.cpp. Persistence: server/src/persistence.cpp, with
--     the objects of common/include/machine_info.hxx in Machine, what the object of a report holds in
--     Figures, and what joins it to Odb in ReadBack.
--   * Odb: common/src/machine_info-odb.cpp (the .cxx beside it is the same text), with
--     common/include/machine_info-odb.hxx and .ixx: Image (image_type, and init both ways), Binding
--     (bind, grow), QueryColumns (query_columns), Statements (the texts, the types, the versions),
--     Prepare (what comes in front of a statement), Object (persist, update, erase, find, find_,
--     reload, query, erase_query). Table says what the operations promise of the table,
--     from what the server does with statements of the texts and the bindings in Statements/Texts.
--   * Alerts: server/src/client.cpp and server/include/client.h: Kinds (the types), Parse (the client
--     list and the lookups), Notify (the alerts).
--   * Smtp: common/include/smtpclient.h. Context: common/src/context.cpp. Logger:
--     common/src/logger.cpp. ServerConfig: server/src/server_config.cpp.
--   * Prototype: src/client_info.cpp and src/main.cpp, an earlier client, where they differ from
--     client/src/client_info.cpp.
--   * Prelude: numbers, texts, maps, and code that may throw. Tests: concrete parameters, and each
--     property at a concrete input.
--
-- How they interact. The client collects a report (ClientInfo), serializes it (Messages) and posts
-- it (Upload). The handler takes the key from the path, looks it up among the clients
-- (Alerts.Parse), parses the content, stores the object (Persistence) and mails the alerts of the
-- client (Alerts.Notify, Smtp). System joins the two: what a round posts is delivered to the
-- server's handlers, and their status is what the client reads; a request that gets no answer makes
-- the client wait for ever. In System the database may do another thing in each round. World is the
-- state of the server that the handlers change; its mails are the clients whose `Send` has
-- returned, also those that found no mail server. A function with effects is an Exec: it takes a
-- state to an outcome and a state. An outcome is a value, an exception, or undefined behaviour.
--
-- Numbers. An int or an int64 is an integer of Prelude.Int, with its conversions written out; stoi
-- and stol test their ranges. A difference of longs out of range ends the client's round as
-- undefined; the difference of the amounts of memory in an alert, an int, is taken modulo 2 ^ 32
-- where it is none. The processor's floats are the parameter Floats, with no law.
--
-- The version of an image is a size_t and wraps at 2 ^ 64; a statement binds its columns again only
-- where the version has changed, so what is shown of the operations on rows asks that it does not wrap.
-- A fetch, a second fetch and a statement read and write the image that their bindings lead into.
--
-- Fuel. The loop of a parser has a round more than there are bytes, which is enough, as each round
-- takes a byte. The loops of get_mem_info and get_cpu_idle_values may run for ever in the source; they
-- take any fuel and say where it runs out.
--
-- Parameters, since their code is not the repository's: boost's property trees (Boost), the
-- protobuf runtime, the database (Persistence.Database), the conversions, buffers and locks of ODB
-- (Odb.Traits), its statements and the database server behind them (Odb.Statements.Driver,
-- Odb.Table.Server), the mail server's socket (Smtp.Network), the HTTP client (Upload.Http), the
-- HTTP server (Startup.Serving.HttpLibrary, with what it documents in Serves), and the floats.
-- ParseFromString and SerializeToString are the runtime's documented composition of the modelled
-- methods.
--
-- Not modelled: the HTTP library in common/include, the callbacks and caches of the ODB compiler's
-- code, which are empty, the other files of src, which are older copies, the test programs, the
-- thread of the server, the sink of the logger, and of the generated messages the arenas,
-- descriptors, accessors and the serializer to a stream.
pub mod Prelude
pub mod Boost
pub mod Context
pub mod Logger
pub mod ServerConfig
pub mod Floats
pub mod Machine
pub mod Smtp
pub mod World
pub mod Wire
pub mod Messages
pub mod Alerts
pub mod Strings
pub mod Persistence
pub mod Handler
pub mod ClientInfo
pub mod Upload
pub mod Startup
pub mod System
pub mod Prototype
pub mod Odb
pub mod Tests
