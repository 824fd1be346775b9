-- ===== src/Lib.antt =====
-- A model of the GStreamer daemon, libgstd, and what it guarantees to its clients.
--
-- The program keeps a tree of resources below a session: a list of pipelines, in each pipeline its
-- state, its elements, its bus and its event handler, and below them properties, signals and
-- actions. A client sends lines of text. The parser finds the command of a line in a table,
-- composes a path and a verb (create, read, update, delete), resolves the path name by name from
-- the session, and calls the operation of the resource that it arrives at. The operations drive
-- GStreamer.
--
-- Which file models what:
-- - ReturnCode: libgstd/gstd_return_codes.h and gstd_return_codes.c, the codes and
--   gstd_return_code_to_string.
-- - Object: libgstd/gstd_object.h and gstd_object.c, the virtual table as the record `ObjectTree`,
--   over a store that the operations change, and the wrappers gstd_object_create and so on. An
--   output pointer may stay unwritten (`Out`). Object/Sound says what a tree of resources owes to
--   the parser.
-- - Session: gstd_get_by_uri of libgstd/gstd_session.c.
-- - Parser: libgstd/gstd_parser.c. Parser/Raw has the four verbs and gstd_parser_parse_raw_cmd,
--   Parser/Pipelines, Parser/Elements and Parser/Events one function per command that composes a
--   path, Parser/Refs the commands that count clients, Parser/Dispatch the table cmds[] and
--   gstd_parser_parse_cmd. The other files below Parser hold the proofs: Parser/Requests and the
--   three files of orders say what each command asks for, Parser/Safety, Parser/SafeCommands,
--   Parser/SafeLines and Parser/Invariant that it is safe.
-- - NodeList: libgstd/gstd_list.c, a list of resources with the guint of their number. Creator,
--   deleter and disposal are arguments.
-- - State: libgstd/gstd_state.c.
-- - Pipeline: libgstd/gstd_pipeline.c, gstd_pipeline_creator.c and gstd_pipeline_deleter.c.
--   Pipeline/Listed puts creator and deleter to work in a list.
-- - Server: the tree of session, list of pipelines, pipelines and their states, as an instance of
--   `ObjectTree`: libgstd/gstd_session.c, the defaults of gstd_object.c, gstd_list_reader.c and
--   gstd_property_reader.c. What stands beside and below these resources is the record `Rest`,
--   whose operations may change GStreamer's world but not the list of pipelines.
-- - Answer: the text that is sent back, as gstd_socket_callback and do_request
--   (libgstd/gstd_http.c) print it.
-- - SocketServer: gstd_socket_callback of libgstd/gstd_socket.c. SocketServer/Loopback joins the
--   server and the client by a network, SocketServer/EndToEnd and SocketServer/Limits are about
--   both.
-- - Http: libgstd/gstd_http.c, with libsoup's messages as records and JSON-GLib as a parameter.
--   Http has do_request and what it calls, Http/ClockSync handle_clock_sync, Http/Status
--   handle_pipelines_status, Http/Callback server_callback; Http/Requests, Http/Carried,
--   Http/Synced and Http/Escape are about these. A request is run when it has been pushed to the pool of threads.
-- - Event: libgstd/gstd_event_factory.c and gstd_event_creator.c, over the calls of GLib and
--   GStreamer on numbers and events as a record. Event/Seek and Event/Sent are about these.
-- - Client: libgstc/c, the client library. Client/Socket models libgstc_socket.c, Client/Json
--   models libgstc_json.c, and Client/Commands, Client/Pipelines, Client/Elements and Client/Bus
--   model libgstc.c. Client/Orders says which request each line of the client is, Client/Framing
--   how an answer is read.
-- - Formatter: libgstd/gstd_iformatter.c and gstd_json_builder.c, the interface that resources are
--   printed through and the calls that it makes of JSON-GLib. Formatter/Documents has the documents
--   that such calls describe.
-- - Printing: the to_string of resources: Printing those of gstd_object.c, gstd_property.c,
--   gstd_state.c, gstd_callback.c and gstd_action.c, Printing/Messages those of gstd_bus_msg.c and its
--   subclasses, Printing/Elements those of gstd_element.c and gstd_list.c, which work on text;
--   Printing/Resources dispatches on the class. Printing/Writes, Printing/Described,
--   Printing/Documents and Printing/Built say which document is printed, Printing/Brackets and
--   Printing/Unclosed whether the texts close their brackets.
-- - Elements: how an element of gstd_element.c fills its lists of properties, signals and actions.
-- - Updates: the update of each class of properties, gstd_property.c and the files of its subclasses.
-- - Actions: gstd_action.c, the emission of an action.
-- - Signal: the wait for a signal in gstd_signal_reader.c, as a step relation over the threads that
--   share the reader. Signal/Runs, Signal/Wakes, Signal/Phases and Signal/Reads are about its runs.
-- - Readers: gstd_property_reader.c, gstd_msg_reader.c and the choice of gstd_signal_reader.c.
-- - Defaults: the default operations of gstd_object.c, the interfaces gstd_icreator.c, gstd_ireader.c,
--   gstd_iupdater.c and gstd_ideleter.c, and the classes gstd_no_creator.c, gstd_no_reader.c,
--   gstd_no_updater.c and gstd_no_deleter.c. Defaults/Refusals compares them with the server.
-- - Action is the monad of the commands: a command goes on with a value, returns a code, or does
--   what C leaves undefined. Base has the helpers, Examples a small server and a small GStreamer on
--   which the definitions are run.
--
-- GLib, GStreamer, JSON-GLib, Jansson and the calls of the operating system are parameters. GLib is
-- the record `GLib` of functions on strings with their documented laws, which GLib/Reference shows
-- to be satisfiable by functions. Gst is the record `Gst` of the calls of GStreamer over a world
-- that they change; but for the names of four states it has no laws, so that every theorem on these
-- holds whatever GStreamer answers. Clocks (Http/ClockSync) and EventCalls (Event) are its calls on
-- clocks and events; what is documented of base times is the record `KeepsBaseTimes`. Jansson and
-- Network are the calls that the client makes of its JSON parser and of sockets, without laws; the
-- network between a client and a server is that of SocketServer/Loopback, which hands a request
-- over in one piece and cuts the answer anywhere.
--
-- What GObject knows of objects, their parameters and their signals is a parameter: the record
-- Objects for printing, Setters for updates, Signals for actions, Resources for readers, and the data
-- type Node for an element with its children. The text that JSON-GLib makes of the calls of its
-- builder is a function without laws, but where brackets are counted: there an object with members is
-- taken to be printed with its brackets closed and the last one in a line of its own (PrintsObjects).
-- GLib's conditions are the steps of Signal: a signal wakes a thread that waits, and is lost otherwise.
--
-- Strings are lists of bytes, and pointers that may be NULL are options. A guint wraps at 2 ^ 32. A
-- loop over tokens, over the table or over what an iterator returns is recursion on the list, so no
-- fuel is needed. The one loop on fuel is that of accumulate_response: it is given as many rounds
-- as the longest response has bytes. That is enough, since a round without a byte makes C look at the
-- byte in front of its buffer: what follows, the end of the loop or more such rounds, is undefined.
-- The loop of handle_clock_sync over the elements of a bin has no end if the iterator stays in error,
-- which is an outcome of its own. A number
-- is printed with at most twenty digits, which is enough for 64 bits. Elements of GStreamer are
-- known to a pipeline by their names. The version of GStreamer is taken to be at least 1.10, at which
-- the command pipeline_verbose is compiled in. The commands run one after the other: locks are not
-- modelled but in Signal, but where locking dereferences a pointer that may be NULL the model says so. Memory is
-- not modelled, but for disposing of a pipeline, which stops it.
--
-- Not modelled: the server of Server takes the resources below a pipeline as a parameter, so that
-- Elements, Updates, Actions, Signal, Readers and Printing are not yet resources of it; two clients
-- that wait for one signal at once; the table of the names of message types, the debug settings, the
-- properties of a session and of a pipeline other than those that the parser reads; the event handler,
-- of which only the creator is modelled; the start and stop of the HTTP, TCP and Unix servers and of
-- the daemon; the order in which the threads of the HTTP server run; the command line client and the
-- clients in Python and JavaScript. Of the client library in C: gstc_client_new and gstc_client_free,
-- the wrappers of pthread, and failures to allocate.
pub mod Base
pub mod ReturnCode
pub mod GLib
pub mod Action
pub mod Object
pub mod Session
pub mod Parser
pub mod NodeList
pub mod Gst
pub mod State
pub mod Pipeline
pub mod Server
pub mod Answer
pub mod SocketServer
pub mod Client
pub mod Http
pub mod Event
pub mod Formatter
pub mod Printing
pub mod Elements
pub mod Signal
pub mod Actions
pub mod Updates
pub mod Defaults
pub mod Readers
pub mod Examples
