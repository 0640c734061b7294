-- ===== src/Lib.antt =====
-- Macrohelp: the HTTP trigger daemon of http-daemon/ (C++, Qt and cpp-httplib), and of the runtime
-- in runtime/source/ its control protocol, its texts and its Registry Hub.
--
-- The daemon schedules Tasket++ macros by HTTP. A request reaches `HttpServer` (src/HttpServer.cpp),
-- whose handlers call `TaskRegistry` (src/TaskRegistry.cpp) to schedule, look up and stop tasks, and
-- `TaskRunner` (src/TaskRunner.cpp) to stop their threads. The registry keeps a record and a timer
-- for each task; when a timer fires it emits `executeRequested`, which main.cpp connects to the
-- runner's `executeTask`. The runner loads the file and starts a `TaskExecutor`
-- (src/TaskExecutor.cpp), whose final report comes back to `onTaskFinished`. All of these paths are
-- under http-daemon/. The runtime's Registry Hub compiles scripts into such tasks and submits them to
-- the daemon one after the other, each after the last has finished.
--
-- The files:
-- - Base and its children: the `int` of the sources with its wrap-around (Int), QMap as an
--   association list in the order of its keys (Dict), QJsonValue (Json), tests and list functions.
-- - Daemon/Types and Daemon/Responses: include/Types.h.
-- - Daemon/Platform: what the daemon takes from Qt, httplib and the file system, as one record of
--   functions over an abstract state `F` of the file system. Every definition that uses them takes
--   the record as its parameter.
-- - Daemon/Registry: `TaskRegistry`. The operations keep the words of the source (`scheduleTask` is
--   `schedule_task`) and return the new registry, with the emitted signals where there are any. Its
--   children hold the invariant, histories of calls, the listing and the life of one task.
-- - Daemon/Executor: `TaskExecutor`. `run` has fuel for the rounds of its `goto` loop; the stop flag
--   is a function from the number of the look at it.
-- - Daemon/Runner: `TaskRunner` with the registry behind it, `Engine`. Its children hold the
--   addresses of the executors, what each call does, and the race of a stop with a start.
-- - Daemon/Loader: `TaskJsonLoader`, over the actions of Tasket++ as the record Tasket; Read, Write
--   and Document have its functions, Document also the disk that the runner sees through it.
-- - Daemon/Server: `HttpServer`, a child for its state, files, names of temporary tasks, handlers and
--   routes, where HEAD goes to the handlers of GET as the HTTP library has it, and three for what the
--   requests may and do change and what is read back (Access, Effects, Stores).
-- - Daemon/World: the connections of src/main.cpp. A step is one request, timer, queued signal,
--   executor report or demand for another task; a run is any sequence of them.
-- - Control: control_protocol.hpp, control_skills.hpp and control_api.cpp, under
--   runtime/source/src/. Csv has `csv`, which reads a request from one line, on bytes; its loop
--   has as fuel the length of the text and one. Checks has `textSafety`, `coordinates` and
--   `patch`, and Normalize `normalize`, on JSON documents; an exception is a value with its HTTP
--   status, and a whole number beyond 2^63 is compared by its 64 bits, as the JSON library does.
--   The bytes of a text and the size of a serialized document are parameters. Skills has the
--   checks of control_skills.hpp, on bytes, and Api the access checks of control_api.cpp.
-- - Runtime: texts of runtime/source/src/main.cpp as lists of bytes. Escapes has the escapes of
--   exported values and of JSON, Quoting the quotes of arguments and of PowerShell literals,
--   Base64 the encoded commands, each with a reader written on its own (`iswspace` is a parameter
--   there); Arguments splits a script's arguments, Brackets finds the end of an array in a task
--   document, and Decimal and Coordinates have the numbers in texts. Places has the names of the
--   Registry Hub's arrays, Settings the lines of a file of settings. Environment is the state
--   that the Registry Hub exports and imports, with Windows as the parameter System; its children
--   Write and Lines have the exported text, and Set the tokens of a script that change it.
--   KeyHistory has the keys that are held and the ring of the last combinations, with what is
--   drawn of it, on strings. The numbers in a text take its length as fuel, digits one more than
--   their number; both are proved to be enough.
-- - Hub: the Registry Hub of main.cpp, registry_rgd.inc and registry_dispatch.inc, under
--   runtime/source/src/. Tokens extracts a script's tokens, Branches checks their structure, Rgd reads
--   an include, Segment compiles the tokens up to the next wait, and Dispatch submits segments, polls
--   their tasks and is cancelled. Host is what these call, over an abstract state; Conditions models
--   one of its calls, the evaluation of conditions, over named values and numbers that are
--   parameters. A segment has as fuel its tokens and the bytes that includes may still add, a submission
--   twice that and three; both are proved to be enough. A cancellation while an include is read is a
--   result of the reader.
-- - Tests modules (Daemon/Tests, Daemon/ServerTests, Daemon/LoaderTests, Control/Tests,
--   Control/NormalizeTests, Control/SkillTests, Control/ApiTests, Runtime/Tests,
--   Runtime/EnvironmentTests, Runtime/KeyTests, Hub/Tests, Hub/ConditionTests): the theorems at
--   concrete inputs.
--
-- Bounds: task numbers and intervals wrap at 32 bits as `int`, the loop count as unsigned int. The
-- theorems on histories ask that the numbers used stay below 2 ^ 31. Times are integers of
-- milliseconds that the caller gives. A call under the registry's mutex is one step; the window
-- between a call and the signal it emits is kept, since signals are queued.
--
-- Not modelled: the dialogs, hooks and drawing of the runtime, console output, option parsing,
-- sockets, and the vendored libraries. Qt, the actions of Tasket++ and Windows are parameters.
pub mod Base
pub mod Daemon
pub mod Control
pub mod Runtime
pub mod Hub
