-- ===== src/Lib.antt =====
-- TermSync, a collaborative editor for the terminal: a server holds the authoritative document and
-- orders all edits by operational transformation; clients send one edit at a time and apply what the
-- server acknowledges or broadcasts.
--
-- Which file models which part (paths from the repository's root):
--   Utf8, Utf8/*            util.c: ts_utf8_char_count, ts_utf8_char_bytes, ts_utf8_byte_offset
--   Operation, Operation/*  util.c: ts_operation_*, ts_apply_operation_to_text
--   Message                 termsync.h: TsMessage; protocol.c: ts_message_init
--   Document, Document/*    document.c: ts_transform_against, ts_document_*, the log line
--   ClientState, */*        client_state.c: the queue, the pump, and the message handlers
--   Protocol, Protocol/*    protocol.c: JSON strings, encoder, decoder, sending and receiving on a stream
--   Terminal                client.c: the cursor, the keys, a turn of the main loop
--   Terminal/Reader         client.c: reader_main
--   Terminal/Queue, */*     client.c: IncomingQueue, queue_push, queue_pop
--   Terminal/Render         client.c: render
--   Terminal/View, */*      client.c: lines, columns, scrolling, and what is drawn
--   Autosave                autosave.c: what the server sends to the process
--   Autosave/Pipe, */*      autosave.c: events as bytes of the pipe, and their reading
--   Autosave/Files, */*     autosave.c: directories, atomic writes, backups, the log file
--   Autosave/Loop, */*      autosave.c: autosave_loop
--   Output                  util.c: ts_write_all_fd
--   Events, Events/*        events.c: log entries as lines for the terminal
--   Server, Server/*        server.c: the list of clients, dispatch_message, the client threads, the last save
--   Server/Thread, */*      server.c: client_thread_main without interruption, server_shutdown
--   Server/Start            server.c: main, up to its loop over connections; util.c: ts_read_file_text
--   Server/Threads, */*     server.c: dispatch_message and client_thread_main as the steps of many threads
--   Protocol/Wire, */*      protocol.c: a message as the members of its JSON object
--   EndToEnd                client_state.c and server.c on what protocol.c decodes
--   Common, Tests           shared notation and lists; runs at concrete inputs
--
-- How the code is read. A C string is the list of its bytes before the terminator; a fixed
-- buffer cuts what is printed into it (`fit`). A position is a `size_t`, and its increment wraps
-- at 2^64. A version of the document counts up from 0 and is a number; an `int` that a message
-- carries is an integer. A read outside a text's buffer is the fault `none`. Each function that
-- holds the document's lock is one step. Server/Dispatch handles one message at a time; in
-- Server/Threads other threads run between any two locks or sends of a thread. The document
-- calls the operations and the UTF-8 functions; the client state applies the server's operations
-- by the same function; messages go over the wire as the lines of Protocol, and EndToEnd joins
-- the two ends. Three functions take fuel: the printing of decimal numbers, whose fuel is above
-- the number, the loop over client numbers, which has one try more than there are clients, and
-- the loop of copy_file, whose fuel is above the length of the file. The results of `read` are a
-- list of chunks, interruptions and errors. The calls of the system on files take their results
-- from a list, so that any of them may fail; the disk is a function of the path, and its state
-- after each call is kept. The clock, the locale and the keys are given to the functions that
-- ask for them.
--
-- Not modelled: failing allocation, overflow of an `int` version at 2^31 edits, sockets, two writes of
-- different threads that mix on the pipe, the buffers of stdio, the start and the end of the processes.
pub mod Common
pub mod Utf8
pub mod Operation
pub mod Message
pub mod Protocol
pub mod Document
pub mod ClientState
pub mod Autosave
pub mod Server
pub mod Output
pub mod Events
pub mod Terminal
pub mod EndToEnd
pub mod Tests
