-- ===== src/Lib.antt =====
-- Speech Dispatcher: a server that takes messages from many clients and speaks them one at a time.
--
-- Clients send lines over a socket (src/server/server.c, serve), which are commands or the text of a
-- message (src/server/parse.c, parse). queue_message puts each message into one of five queues, by
-- the priority of its client, and applies the rules by which a message of one priority drops waiting
-- messages of another (src/server/speaking.c, resolve_priorities). A thread of its own takes the
-- next message out of the queues and hands it to an output module, whose events it reports to the
-- client. Clients stop, cancel, pause and resume speech, and change their settings (src/server/set.c).
--
-- Files:
--   Types           include/speechd_types.h: the enumerations. A cast of -1 is `none`, but for
--                   voices, where -1 is SPD_UNSPECIFIED.
--   Conv            src/common/fdsetconv.c: their names. Conv/RoundTrip relates the two directions.
--   Message         src/server/speechd.h: TFDSetElement, SPDMsgSettings, TSpeechDMessage.
--   Server          the globals that the threads share, as one record; what is done to the world (a
--                   notification to a client, a wake-up, a command to a module) is appended to a
--                   log. Server/Clients has the look-ups of src/server/set.c, Server/Output the
--                   requests of src/server/output.c to stop and to pause.
--   Server/Modules  src/server/output.c: get_output_module, and escape_dot of the server.
--   Speaking        src/server/speaking.c. Queue: the loops over one queue; Priorities: the priority
--                   rules; Choose: get_message_from_queues; Stop: stopping and cancelling; Pause:
--                   pausing and resuming; Events: is_sb_speaking; Enqueue: queue_message of
--                   src/server/server.c; Reload: reload_message and the handling of a resume request;
--                   Loop: a round of speak(), with output_speak of src/server/output.c. Spoken has
--                   the invariant of the loop. The files below these hold their proofs.
--   IndexMarks      src/server/index_marking.c: marks are put into a text, found and taken out.
--                   Stripped and Resumed relate these.
--   Playback        src/common/speak_queue.c: the two threads of the play-back queue (Player,
--                   Stopper) and the calls of a module (Calls), interleaved in any order (Threads).
--                   Account, Sleeping, PauseMark, Ends: what holds in every reachable state; Order,
--                   Halting, Closing, NoAudio: what comes to an end and what does not.
--   ClientSettings  src/server/set.c: the functions that set a value for one client and for all.
--                   Loop: what the loop over all clients reaches; Ranges: the bounds of the numbers;
--                   Notified: the mask of events, against the record of what a client is told of.
--   Parse           src/server/parse.c. Dots: deescape_dot, with escape_dot of
--                   src/api/c/libspeechd.c; Data: the data mode of parse, and serve; Param:
--                   get_param and isanum; Command: stop, cancel, pause, resume and the single
--                   events; Block: the commands for blocks; Set: most branches of parse_set. The way
--                   of a text from the client library to its queue is followed in Data/Lines, Wire,
--                   Escaped and Delivery.
--   Connection      src/server/speechd.c: clients that connect and go. Sound: what the tables of
--                   clients keep; Everyone: a setting for all reaches whoever is connected.
--   Protocol        what the server and an output module send to one another, as lines. Speak: a text
--                   from output_speak to cmd_speak of src/modules/module_process.c; Numbers: the
--                   numbers that are printed and read; Audio: a piece of audio from
--                   module_tts_output_send_server to the server. module_readline is taken to give the lines of
--                   the pipe in turn.
--   Samples, Tests  concrete states, and the theorems at them.
--   Base            shared helpers: Boolean tests, lists with native indices, signed integers, bytes.
--
-- But for the play-back queue, the functions run under element_free_mutex in the source, so a step
-- of the model is a whole call. A round of speak() takes it for its parts; the model takes the
-- round as one step. In Playback a step is one critical section of a thread, from where it takes
-- the mutex to where it gives it up or waits. A GList is a list, a pointer to one of its cells is
-- an index; a hash table is an association list. A message has the address of its structure, so
-- that two pointers to one message are two equal values, and its copy has another address. FATAL, a
-- failed assertion and a read through a null pointer are the results `fault`. Message ids and
-- client numbers are natural numbers: the wrap-around of `int` after two thousand million messages
-- is not modelled.
--
-- The loops that search again after each change run on fuel: one round for each message in the
-- queue and one more, and the theorems about them show that this is enough, since every round but
-- the last takes a message out.
--
-- `receive` calls `serve` until a text is complete, on fuel: each round takes a byte, and the theorem
-- about it holds for any fuel above the number of bytes that the text has on the wire.
--
-- g_utf8_validate and g_ascii_strdown of GLib are arguments, and so is what g_malloc returns. A
-- `strstr`, a hash table and a GList are written out as what C and GLib document.
--
-- `resume_loop` has one round more than there are paused messages, `strip_loop` more rounds than the
-- text has bytes, and the digits of a number n are taken in n rounds.
--
-- What poll() reports, g_utf8_normalize, g_unichar_isspace, the reading of characters, the opening of
-- sound files and the symbols that src/server/symbols.c inserts are arguments too.
--
-- Not modelled: the dispatch of parse(), the branches of parse_set for the language, voices, the
-- client name, the output module, debugging and notifications, parse_get, parse_list and
-- parse_history, history, symbols, the pipes of the output layer, module processes, configuration,
-- audio back-ends, bindings and command line clients.
pub mod Base
pub mod Types
pub mod Conv
pub mod Message
pub mod Server
pub mod Speaking
pub mod ClientSettings
pub mod Parse
pub mod Playback
pub mod Protocol
pub mod IndexMarks
pub mod Connection
pub mod Samples
pub mod Tests
