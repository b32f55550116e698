-- ===== src/Lib.antt =====
-- corestack: a verification library for the C programs of the repository.
--
-- Two systems stand on one core: tetriSH, a multiplayer Tetris (a server tetrisd, a client tetrisu),
-- and ballotbox, a voting system. Both speak the request and response grammar of libhtttp over an
-- encrypted channel, and write to a database through the statement queue of libtetrisdb. In tetrisd
-- each player has a session, which runs the game engine of libtetrisbrain; the sessions meet in the
-- rooms that the admin thread keeps. A session asks for moves, ticks the engine, drains the garbage
-- that its player earned, and takes the garbage that the admin thread routes to it.
--
-- The modules:
--   Prelude    shared names: tests on numbers, lists, integers, bounded loops, byte strings.
--   Brain      tetriSH/src/libtetrisbrain. Model is gamestate.h, Piece is piece.c, Board is board.c,
--              Rng is rng.c, Scoring is scoring.c, Action is action.c, Game is tetrisbrain.c. An
--              operation takes a GameState and returns the one that it leaves behind, with the C
--              result where there is one. Game.Play adds the garbage branch of session_handle_admin
--              in tetriSH/src/tetrisd/session.c and runs whole games.
--   Htttp      core/src/libhtttp/htttp.c. Message has the structs and the header helpers, Parse the
--              parsers, Serialize the serializers. Result is htttp_err_t.
--   Db         core/src/libtetrisdb/pipe/queue.c. Queue has the struct and its calls; each call under
--              the mutex is one step. Run interleaves callers and the worker.
--   Room       tetriSH/src/tetrisd/room.c. Model has the records, Table the tables of clients and
--              rooms, the members and the wedged list, Board the bounded insertion behind the
--              roster and the scoreboard, Rank the rows and the winner, Round the end of a round,
--              Attack the target of garbage. Server has the messages and the sends, and its
--              children the handlers: Push what goes to a whole room, Depart handle_leave and
--              client_close, Join handle_join, Handle the others and client_handle, Views the
--              snapshots. A handler takes the Server and returns the one that it leaves, with the
--              status where there is one.
--   Session    tetriSH/src/tetrisd/session.c. Scan reads numbers and paths, Route has the table and
--              the routes, Dispatch session_dispatch, Admin session_handle_admin and the pushes,
--              Loop the tick and the events of session_main.
--   Net        tetriSH/src/tetrisu/net.c, the client's side: Send the commands, Receive what comes.
--   Ballot     ballotbox/src/libballotclient/codec.c. Ballot and Response have the data, Names the
--              tables of names, Hex the payload, Body the lines of a body, Encode and Decode the
--              requests, Answer and Reading the replies.
--   Util       core/src/libtetrisutil/name.c, the rule for player names.
--
-- Loops and fuel. The hard drop and the ghost recurse on fuel taken from the piece's row: a row below
-- the board is blocked, so they end before it is spent. The walk of a buried piece has one unit for
-- each row up to where the source gives up. The header loop has one unit more than the bytes that are
-- left, since each round takes a line. The drain of db_stop has one unit more than the statements
-- that wait. The retries of execute are counted down from DB_RESPAWN_MAX. The search for a free room
-- id has one unit more than the rooms of the table: each number that it skips is a room's.
--
-- Numbers. An int that the code only counts up from 0, as the score, is a natural number without a
-- bound. Positions on the board, room ids, player ids and descriptors are integers. The generator's
-- 32-bit arithmetic, the queue's unsigned long counters and the client's count of frames wrap; a
-- number that sscanf or atoi reads is brought into the range of an int, as glibc does.
--
-- Parameters. The child process of the queue is a record of its calls (Db.Queue.Proc); what the clock
-- prints is an argument of serialize_response; whether memory or a thread can be had is a Boolean.
-- Whether a client's socket is full is the field blocks of Room.Server.Server, and the seed of a round
-- is an argument of the handler that starts it. What libtetrisauth, history.c and the clock answer a
-- session is a Session.World, and the layout of the structs in a message body is a
-- Net.Receive.Structs.
--
-- Not modelled: input and output (sockets, pipes, terminals, files, signals, processes), the handshake
-- and the cryptography, the poll loops around the handlers, the writes of the match history, the Java
-- database, the shell, the log daemon, the screens of the clients, the control planes, and
-- of ballotbox all but the codec.
pub mod Ballot
pub mod Brain
pub mod Db
pub mod Htttp
pub mod Net
pub mod Prelude
pub mod Room
pub mod Session
pub mod Util
