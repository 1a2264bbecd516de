-- ===== src/Lib.antt =====
-- kekmonitors-cpp: a manager of monitor and scraper processes, and the library of messages that its
-- clients and the processes use.
--
-- A client connects to the manager's Unix socket and sends a command as JSON text. The server
-- (src/bin/moman/server.cpp) reads it and calls the manager's callback for it
-- (src/bin/moman/callbacks.cpp), which starts or stops Python processes, reports on them, or shuts
-- the manager down. The callback answers with a response, at once or from a later handler of the
-- event loop. A command for a monitor and its scraper together runs both halves and answers once
-- both are done. The manager also watches the folder of sockets and the configuration files
-- (src/bin/moman/moman.cpp), whose changes it sends to the processes, and hears when one of its
-- processes exits.
--
-- The files, and the code that each models:
--   Prelude    Booleans, look-ups, `std::unordered_map` as an association list, and how a call ends.
--   Text       `std::string::rfind` and `substr`.
--   Core       include/kekmonitors/core.hpp, src/lib/core.cpp, and the name look-ups of
--              src/lib/utils.cpp: `COMMANDS`, `ERRORS`, `initMaps`, `stringToCommand` and its three
--              companions. Core/Bimap is the interface to `boost::bimap`.
--   Json       The interface to `nlohmann::json`.
--   Msg        include/kekmonitors/msg.hpp and src/lib/msg.cpp: `Cmd` and `Response`.
--   Utils      src/lib/utils.cpp: Common has `makeCommonResponse`, Files
--              `getContentIfFileExistsElseCreate`, Python `getPythonExecutable`.
--   Config     src/lib/config.cpp: the default text, `Config` and `getConfig`.
--   Connection src/lib/connection.cpp: how a message is read from a socket. Link has the reading of a
--              message with its time-out, as a machine, and the end of a write.
--   Server     src/bin/moman/server.cpp: `UnixServer`.
--   Moman      src/bin/moman: State has the records of moman.hpp; Reply the response callbacks and
--              `MonitorScraperCompletion`; Add `onAdd`; Stop `onStop`; Status `onGetStatus`, `onPing` and
--              `shutdown`; Processes and Sockets what moman.cpp does when a process exits or a socket
--              appears or goes; Configs `parseAndSendConfigs` and `sendCmdIfProcess`; Watcher
--              `onInotifyUpdate`; Start the constructor; Loop the event loop. Invariant, OneAnswer,
--              Defined and Watches hold what the proofs about all of these need, Life what may
--              become of a stored object.
--   Cli        src/bin/cli.cpp: `main` from its arguments to the command that it sends, and its handlers.
--   Stopmm     src/bin/stopmm.cpp: the tool that stops the manager.
--   Tests      Instances of the interfaces, and each theorem at a concrete input.
--
-- State. `System` holds the two maps of stored objects, the completions, what the loop is still to
-- call back for, the responses written, the server, the watches, and the commands that are being
-- sent to processes. A handler is a function from a system to an `Outcome`: the system that it
-- leaves, an exception with that system, or undefined behaviour, such as the read of a null
-- pointer. A captured `shared_ptr` to a completion is the number of the completion, a connection is
-- a number. The command and error codes are 32-bit: what JSON gives as a number is taken modulo 2 ^
-- 32, as the conversion of nlohmann::json does.
--
-- The loop. `Step` runs one handler: for a connection, a command, the end of a pending operation,
-- the exit of a process, the events of the watcher, or a stage of a command that is sent to a
-- process. Which may happen is what boost::asio documents of the order and the end of operations
-- (`MayHappen`). A handler that an exception leaves, or that is undefined, ends the history. What
-- the world answers a handler (the data base, the start of a process, whether a socket accepts) is
-- an argument, and free in each step.
--
-- Fuel. `terminate_loop` visits an entry of the map once, or twice if the entry keeps its socket:
-- its fuel is twice the number of entries and one more.
--
-- Time-outs. `LinkStep` runs the ends of a read and of the wait on its timer, and their handlers, in
-- every order that asio allows; a wait that has ended cannot be cancelled any more. Each connection
-- reads one message. The loop's `receives` is the call that such a link makes.
--
-- The watcher. Each event of one call of `onInotifyUpdate` points to a watch of the list as it was
-- when the call began, and is given with that watch's path; to handle an event whose watch an earlier
-- one erased is undefined.
--
-- A message on the wire. `Connection` reads into a buffer of 1024 bytes that is full of NUL
-- characters at first and hands the whole buffer to the parser, which ends at the first NUL. A text
-- stands for its bytes. A longer message is cut off.
--
-- Files. What std::filesystem, std::fstream and the ini parser do are the operations of an
-- interface, with what their documentation says of a file that is written and read again
-- (Utils/Files). The manager's use of the configuration (the paths that it reads from it) is an
-- argument of Start and Watcher.
--
-- Not modelled: logging, other than what the two tools print; the removal of the server's socket
-- file; inotify-cxx, which is a copy of another library: its events are inputs, and so is whether
-- `Add` and `Remove` return or throw in `onInotifyUpdate`, while the constructor's `Add` is taken to
-- return; in the loop, what becomes of a response once its write has begun (Connection/Link has the
-- end of a write).
pub mod Prelude
pub mod Text
pub mod Core
pub mod Json
pub mod Msg
pub mod Utils
pub mod Config
pub mod Connection
pub mod Server
pub mod Moman
pub mod Cli
pub mod Stopmm
pub mod Tests
