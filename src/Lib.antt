-- ===== src/Lib.antt =====
-- The quadrocopter flight simulation: a client that integrates the motion and a server that computes
-- the commands, each a C program of several threads that exchange packets of floats over UDP.
--
-- Parts, and the files that model them:
--
-- - Base: names, lists, outcomes of C code (a value, `exit(1)`, or an access that C leaves
--   undefined) and arithmetic of `|` and `&`. Models no code of its own.
-- - Wire: the byte codec of client/io_stuff.c (server/io_stuff.c is the same text). A `float` is an
--   abstract type with the 32 bits of its memory, `FloatRepr`, a parameter of all that follows.
-- - Packet: `Packet` and its readers and writers in server/network_interactions.c, which
--   client/network_interactions.c repeats. A block of memory is a list of bytes; the loops over
--   `len` and `floats_count` recur on the rounds left, so they need no fuel. Packet/Memory has the
--   same packets with each block that is allocated and freed for them, send_calcs of both
--   run_sender.c, and the receive and the parse in the rounds of run_listener, one for each datagram of a
--   list.
-- - Arith and Reference: the arithmetic of C that the calculations use, as an interface with the
--   operations of `float` and `double` kept apart, and `tanRh` of client/nrutil.c over it.
--   Arith/Exact names the laws of a field and Arith/Ring those of a ring, for what is proved of the
--   formulas without rounding; Arith/Terms has formulas and their derivatives, and Arith/Normal a normal
--   form by which equal ones are seen to be equal. Arith/Integers is an arithmetic with these laws.
-- - Heap: blocks of floats, `free` and `copy_arr_of_floats`.
-- - Condition: a `ThreadConditionPack` of client/threading_stuff.c and server/threading_stuff.c, its
--   mutex and its condition variable, between the thread that waits and the one that signals.
-- - Barrier: the start of the threads of either program at its barrier, a step relation for any number
--   of threads: `initialize_barriers`, `spawn_workers` and the first call of each thread function in
--   client/main.c and server/main.c.
-- - Text: the texts that the programs build in memory: arrays of floats and file names of
--   client/io_stuff.c, and the messages of server/run_listener.c. The loops recur on the rounds left
--   or on the text.
-- - Address: `bind_sockaddr`, `copy_sockaddr` and `are_hosts_unequal` of both network_interactions.c.
--   Server/Network and Client/Network are the sockets and addresses of each program, and Meeting
--   puts the two together.
-- - Server: the server. Server/Control is `server_calculations` of server/calculate.c. Server/Stock
--   is server/data_struct.c, with the memory that the stocks own. Server/Threads is the protocol of
--   its four threads (server/main.c, server/run_listener.c, server/run_sender.c) as a step relation:
--   one listener each for the two halves of the state, the calculator in the main thread, and the
--   sender. Its server_calculations is a parameter; Server/Control is the one of the source.
--   Server/Rounds is the memory of the server from round to round: store_batch, read_batches and
--   calculate_res.
--   Server/Spawn is the start of the threads in server/main.c, with server/listener.c and
--   server/sender.c.
-- - Client: the client. Client/Plant is `set_u` and `derivs` of client/calculate.c, Client/CalcData
--   the state of client/calculate_structs.c, with `vec_to_floats`, and Client/Integrator `get_next_step` of client/main.c,
--   where the answers of `get_u` are a parameter. Client/Stock is client/data_struct.c.
--   Client/Threads is the exchange of `get_u` in client/main.c with the sender and the listener
--   threads (client/run_sender.c, client/run_listener.c), with the server behind two queues.
-- - Client/Packs is what the client's threads are given, from client/main.c, client/data_struct.c,
--   client/listener.c, client/sender.c and client/printer.c. Client/Spawn is the start of these threads
--   and their end, in client/main.c and client/signal_handling.c; the loop over the workers has the
--   number of nodes as fuel.
-- - Client/CalcRef is the table of the trajectory, `calc_ref` of client/calculate.c; its loop
--   has fuel, and gives nothing where it runs out of it; that the loop over floats ends is not shown.
--   Client/PrinterParams is
--   client/printer.c, with the collection of parameters of client/data_struct.c.
-- - Client/AngleCommand is AngleCoordCommand of client/calculate_structs.c.
-- - Client/Workers is the list and the collection of workers of client/utils.c and
--   client/data_struct.c; its loop over the nodes has the number of nodes as fuel.
-- - Client/DoubleList is the double linked list of client/utils.c; its free has fuel, and as many rounds
--   as the list has nodes are enough.
-- - Client/Printing is the loop of the simulation in client/main.c with client/run_printer.c.
-- - Exchange: the batches of a state sent, received and computed with, without the threads, and
--   `calculate` of server/calculate.c.
-- - Conversation: the threads of both programs together, with the datagrams between them: every step is
--   one of Client/Threads or Server/Threads, and a pair of batches goes out in two sends. The network
--   may lose, repeat and reorder datagrams, and how often it did is counted.
-- - ClosedLoop: the control law of the server put into the motion of the client. ClosedLoop/Motion has
--   the motion as formulas and rates, from which formal derivatives are taken. Commands has the law of
--   the server at a state, Formulas and Fourth compare it with those derivatives, and Errors has the
--   errors of the trajectory.
--
-- In the protocols of the threads a wait on a `ThreadConditionPack` is one step that needs the flag and
-- clears it, and a signal is one step that sets it; Condition has their calls one by one.
--
-- Not modelled: the socket calls and the writing of a text, which are input and output, and a parameter
-- where the code depends on them; the frees of packs; `print_pack` of io_stuff.c, which is output; the
-- vectors of nrutil.c, a copy of Numerical Recipes, which are functions from subscripts here; the old
-- programs echoClientUDP.c and echoServerUDP.c, which no Makefile builds; the Python plots.
mod Base
pub mod Wire
mod Text
pub mod Address
pub mod Packet
pub mod Server
pub mod Client
mod Arith
mod Reference
mod Conversation
mod ClosedLoop
mod Meeting
mod Heap
mod Exchange
pub mod Barrier
pub mod Condition
