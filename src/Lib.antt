-- ===== src/Lib.antt =====
-- A model of the library that gives reliable byte streams over UDP (src/lib), and theorems about it.
--
-- The program. An application's bytes go into a circular buffer; `processTou::send` cuts them into
-- packets as the windows allow, sends each in a datagram and gives it a timer. The receiver
-- classifies a datagram, puts bytes that are next in order into its circular buffer, keeps the
-- others in a heap until the gap closes, and acknowledges, at once or after a delay. An
-- acknowledgement moves `snd_una`, opens the congestion window and clears timers; a timer that runs
-- out sends its packet again and closes the window.
--
-- The files, and the code they model (paths from the repository's root):
--   Prelude      shared helpers: Boolean tests, lists, words of 32 and 16 bits, tables, memcpy
--   Buffer       src/lib/circ_buf.h and circ_buf.cpp, class CircularBuffer: m_uiSize, m_uiHi, m_uiTi,
--                m_uiTotEl and m_buf are size, hi, ti, tot_el and buf; insert (two of them), remove,
--                getAt (two), setSize and the getters. Queue is the specification.
--   Congestion   src/lib/tou_control_block.h, tou_congestion.h, tou_ss_ca.cpp: tou_cb is ControlBlock,
--                and addwnd, getwnd, settwnd, setdwnd the operations of class ssca
--   Packet       src/lib/tou_header.h, tou_header.cpp: touHeader and touPkg, toString and the
--                constructor from a string
--   Heap, Node   std::priority_queue as a list in the order of its pops; src/lib/timer_node.cpp and
--                the order of timer.h
--   Socket       src/lib/tou_sock_table.h, tou_sock_table.cpp: sockTb, and sockMng over stbq
--   Process      src/lib/processtou.cpp: proc_ack, processGetPktState (classify), putcircbuf,
--                do_proc_pkt_rec (recover), getSendSize, popsndq, gen_pkt, send
--   Timer        src/lib/timer.cpp, timer_mng.cpp: the clock, the round trip, the timer heap
--   Delack       the delayed acknowledgements of timer.cpp, timer_mng.cpp and processtou.cpp
--   Link         what one call works on: a socket table with the timers, the datagrams that wait
--                (inbox), those sent (wire), and the local pointer tp of run
--   Run          src/lib/processtou.cpp: processTou::run, a function for each case of its switch, and
--                run_recvfrom
--   Api          src/lib/tou.cpp: touSocket, touBind, touListen, touConnect (connect_syn and
--                connect_reply), touAccept (accept_syn_ack and accept_ack), touSend, touRecv;
--                Api/Close is touClose and the closing thread (dothis, with server_close and
--                client_close for its two branches)
--   Thread       src/lib/timer.cpp: a turn of doit, with its loop over run (drain)
--   Logger       src/lib/tou_logger.h, tou_logger.cpp: logData for a line of text
--   Samples      concrete states that the tests share
--
-- Conventions. The target is the 32-bit one of config.log: unsigned, int and u_long are patterns
-- below 2 ^ 32 with their wrap written out (add32, sub32), and a comparison of an int is one of
-- patterns (lt_int, nonpositive). A result of Option is none where the code aborts: exit, a failed
-- assertion, an exception, a division by zero, a null or stray pointer. malloc is a parameter.
-- Memory that is not set is an argument (junk). The mutexes make each operation one step. The float
-- t_rtt_alpha is counted in eighths, and a product by it is rounded to the 24 bits of single precision,
-- to the nearest (Timer.single). An address of a socket
-- table is its place in a list, for tables are not freed. The comparisons of both heaps are `>=`,
-- which the library leaves open for equal keys; the model puts the later of them above.
--
-- Bounds. The loop of send runs on fuel, the bytes stored, the packets that congestion avoidance allows
-- and one more: each turn takes a byte or one of these packets, so the fuel is enough on every table
-- (Process/Turns), and the none of send is an abort alone. The loop of run has four rounds for each
-- datagram that waits and five more, which are enough, as every state leads within four rounds to the
-- next datagram or to the end. The timer thread's loop over run goes by a list of the results of
-- try_lock, since a call that misses the lock returns 0 and takes nothing; what the thread that has the
-- lock does meanwhile is not part of the link.
--
-- touClose and its thread send and receive the memory of a packet object, whose layout is the
-- compiler's: it is an argument (Layout), and where a theorem depends on it, a hypothesis on the order
-- of bit-fields. The thread's packet is taken to be constructed before the thread runs.
--
-- Not modelled: a datagram that arrives while a call runs; several tables over one timer heap in a
-- turn of the timer thread; the write of cal_rto to another table, where a timer's node points to one
-- (cal_rto_at leaves the table of the call as it was); the sockets, whose results are arguments, and their failures;
-- the files and times of the logs, and the line of the probe, which compares floating point times; the
-- older sender of tou_process_send.cpp, which uses fields that the table has no longer; and the
-- programs.
pub mod Prelude
pub mod Buffer
pub mod Congestion
pub mod Packet
pub mod Heap
pub mod Node
pub mod Socket
pub mod Process
pub mod Timer
pub mod Delack
pub mod Samples
pub mod Link
pub mod Run
pub mod Api
pub mod Thread
pub mod Logger
