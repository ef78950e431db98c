-- ===== src/Lib.antt =====
-- A verification library for the C programs of this repository.
--
-- The repository is a collection of separate programs. The ones below are modelled; each is a tree
-- of modules, and no two of them share state. Prelude has the shared helpers: numbers, integers,
-- lists under native indices, bits, and Boolean tests.
--
-- Acct: the accounting pseudo-device for the OpenBSD kernel, 1.acct-driver-obsd/src/acct.c and
-- acct.h. Kernel hooks (acct_fork, acct_exec, acct_exit, acct_open, acct_rename, acct_unlink,
-- acct_close) put numbered messages on a list, acctread hands the oldest one to a reader, and
-- acctioctl chooses which events are logged and which files are tracked.
--   Acct.Types     the structures and constants of acct.h
--   Acct.Kernel    the kernel's part: the red-black tree, namei, the clock. It is a parameter, a
--                  record, and the laws of the tree that acct.c relies on are a second one
--   Acct.Track     the tracked files: the trktree_ functions and path_to_vnode
--   Acct.Log       acct_void, update_seq, add_node, and the end that the hooks share
--   Acct.Hooks     the seven hooks
--   Acct.Ioctl     acctattach, acctopen, acctioctl, acctpoll, acctwrite
--   Acct.Read      acctread with its wait and its copy loop, acctclose, ac_seq_reset
--   Acct.Sample    a concrete kernel, on which the tests run
-- The state is the record State: the message list, driver_ctl, the next number, the tree, and how
-- many readers hold the lock. An operation is a function from the state to the new one. Whether
-- `malloc` succeeds, the wake-ups of `tsleep_nsec`, and what `uiomove` returns are arguments. The
-- number is an unsigned 32-bit integer and wraps around. The copy loop of acctread runs on fuel,
-- two rounds more than the message has bytes, which is enough because each round but the last
-- transfers a byte at least. Locks between the processors are not modelled: hooks run one by one.
--
-- Battle: the battleship game, 5.Game-Management.
--   Battle.Text    thing.h, queue.c as the sequence of its texts, and what `sscanf` reads
--   Battle.Nodes   list.c and node.c: the linked nodes by which a queue is kept, on a heap, and that
--                  they hand out what the sequence of texts does
--   Battle.Grid    grid.c: boards, and drawing a ship
--   Battle.Move    move.c: which texts are moves
--   Battle.Game    game.c: shots, turns, and who has won
--   Battle.Check   check.c and handle.h: the arguments, and the message of each error
--   Battle.Setup   game.c: game_set, game_init and game_draw, which read rules and maps
--   Battle.Agent   agent.c: agent_move and fighter_guess, by which an agent chooses a cell
--   Battle.Hub     2310hub.c: the loop that asks the agents in turn and sends them the shots
-- Battle.Setup makes the Game on which the turns of Battle.Game.Over act. A board is a list of
-- rows. The loops are recursions on the texts, on the ships, and on the length of a ship. The loop of
-- the hub runs on fuel; one round more than the first agent has answers is enough, since each round
-- takes one. Printing, files, the processes with their pipes, and the loops in which an agent reads
-- what the hub sends are not modelled. The numbers in rules and maps are taken to fit an `int`.
--
-- Pfexec: the system call of 0.syscall-pfexec-obsd, by which a program asks to be run as another user.
-- sys_pfexecve of src/kern/kern_pfexec.c makes a request, sends it to the daemon of
-- src/pfexecd/pfexecd.c, and does what the response says.
--   Pfexec.Packet          pfexecvar.h and pfexec.h: the request, the response, references to strings
--   Pfexec.Kernel.Request  validate_args, craft_mbuf, fill_mbuf
--   Pfexec.Kernel.Socket   listen_sock, send_sock, rcv_sock, start_sock
--   Pfexec.Kernel.Call     sys_pfexecve, process_response, check_priv, pfexec_escilate, pfexec_exec,
--                          change_dir, apply_chroot
--   Pfexec.Daemon          parseuid, uidcheck, match, and the tests and the loop of process_request
--   Pfexec.Daemon.Response craft_response, process_request, the answer of on_client_readable
--   Pfexec.Whole           the daemon's comparison on the requests that the kernel makes
-- A char array is the list of its bytes, a string in the caller's memory the list of its bytes without
-- the NUL. The sizes NGROUPS_MAX, LOGIN_NAME_MAX, PATH_MAX and ARG_MAX are the record Limits, ARG_MAX
-- being below 2^31 where it matters. copyinstr, namei, VOP_ACCESS and sys_execve are the record Kern,
-- the socket layer is Layer, the user and group databases, strtonum and prepenv are Users, and all
-- else that a call meets is World. The loops are recursions on the strings and on the counts, so there
-- is no fuel. Freeing memory, the task queue, the event loop, the log and the configuration are left out.
--
-- Sudoku: the check of a sudoku, 9.sudoku/sudoku.c, and the board of 9.sudoku/solve.c. A board is a
-- list of lines. Sudoku.Lines is about one line, Sudoku.Whole about check_grid.
--
-- Descent: the recursive-descent parser B.lex_yacc/src/recursive-descent/recursive_descent.c. The
-- pointer `next` is the text that is left. The functions call each other on fuel, and two rounds for
-- each byte and two more are enough, since E on a text calls T on it, and every other call is on a
-- text that is shorter by a byte at least. Descent.Sums says what the parser accepts.
--
-- Rudp: files over UDP, 2.0.ReliableUDP. A thread per port answers the requests of a client.
--   Rudp.Hdr       RHdr.h and RKey.h: the flags, the check sum, the encryption
--   Rudp.Queue     RQueue.h and RState.h: the packets that came and those that went
--   Rudp.Process   RProcess.h: rprocess_request, from the last packet of the client to the answer
--   Rudp.Serve     RHandleServ.h: one connection, what comes for it, and what its thread sends
--   Rudp.Client    RClient.c: the loop of main
--   Rudp.Client.Transfer  the client and the server, with the order of bytes of the net between them
-- The state of a connection is the record RMsg, and rprocess_request goes from an RState to a new one
-- and whether a packet is to be sent. The files are the record Files with the laws FilesLaws: the
-- length of what `fread` gives, and that an open file is read on. Whether a datagram comes, the clock
-- and what the socket returns are arguments. Exchanges between the client and the server run on fuel,
-- and two more than the file has packets are enough. They meet no loss there; Rudp.Serve.Runs is about
-- any datagrams whatever. The trees by which RUSHBSvr.c finds the connection are left out, so are its
-- socket and its main loop.
--
-- Link: the switches of 2.1.LinkLayerSim.
--   Link.Address   RIPop.h: the addresses that are handed out, and which texts are addresses
--   Link.Map       RMap.h and RTabel.h: the distances between addresses, the search for the nearest
--                  neighbour, and the client behind an address
-- An address is the record Boxes, of four bytes, or its number; `ntohl` is a parameter. The lists that
-- the C code keeps by their ends are lists. The loop over a text has the sixteen rounds of the source.
-- Packets, handshakes, sockets and threads are left out.
--
-- Not modelled: the metrics server of 2.libevent-server and its copy of an HTTP parser,
-- 4.Game-Protocol, 6.BattleShip (an earlier copy of 5.Game-Management), the kernel files that the
-- drivers only patch, and the exercises in the other directories.
pub mod Prelude
pub mod Acct
pub mod Battle
pub mod Pfexec
pub mod Rudp
pub mod Link
pub mod Sudoku
pub mod Descent
