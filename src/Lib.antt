-- ===== src/Lib.antt =====
-- The packet pipeline of RIDS, processing/dpdk_pipeline: the parts of the program that are its own
-- logic, over DPDK, the C library and the kernel.
--
-- The main thread reads commands from its clients, one in a line. Their arguments go through the
-- readers of parser.c. Commands create named objects: queues, pools, interfaces, traffic manager ports,
-- profiles of actions. Each file of objects keeps a list of nodes, found by name and extended at the
-- tail, and acquires for a node one resource of DPDK or of the kernel. Pipelines are then mapped to data
-- plane threads, whose slots the main thread changes itself, or by messages where the thread runs. The
-- rules of a pipeline's tables are changed in the same two ways; the main thread keeps a list of them.
--
-- Which file models which part:
--   Prelude     Boolean tests on numbers, lists, and results with the status of an error.
--   Libc        strtoul, strtol and the classes of characters, as the C standard describes them in the
--               C locale, and skip_white_spaces of parser.h. A string is the list of its characters
--               before the final NUL; reading behind its end gives 0.
--   Parser      parser.c: Numbers (parser_read_uint*), Switch (parser_read_arg_bool), Tokens
--               (parse_tokenize_string), HexString (parse_hex_string), Mpls (parse_mpls_labels), Mac
--               (parse_mac_addr), CpuCore (parse_cpu_core). A function of the same name takes the
--               string and returns what is stored through the output pointer, or the error. Strings are
--               taken to be shorter than 2 ^ 32.
--   Registry    what the files of objects share: the search, strlcpy into NAME_SIZE bytes, the end of
--               each function X_create, and the account of the resources that are live.
--   Swq, Mempool, Tap, Tmgr, Action
--               swq.c, mempool.c, tap.c (the Linux build), tmgr.c, action.c, one function per function.
--               Calls of DPDK and of the kernel are parameters of the functions, given as records
--               (MbufPools, Kernel, Sched, TableActionApi, PortInActionApi), and so is whether calloc
--               succeeds. The configurations that action.c only passes on to DPDK are of one type
--               that is a parameter.
--   Link        link.c and link.h in the same way; the Ethernet ports are the record EthApi. The loops of
--               rss_setup that fill the redirection table are reta_of.
--   Conn        conn.c: data_event_handle. The handler of commands is a parameter that works on the state
--               of the program, and whether a write succeeds depends on the earlier ones.
--   Thread      thread.c: the slots of a data plane thread, the messages that change them, and in
--               Thread/Control the functions thread_pipeline_enable and thread_pipeline_disable of the
--               main thread. An array is a function of the index. The
--               scratch buffer of a slot is left out: it is written before each use. The main thread
--               waits for the answer to its one request, so the queue holds this request alone.
--               Slots reads the slots of one thread as a set, Mapping says what it means that the
--               slots and the pipelines' own records agree, Kept is about single calls and Commands
--               about sequences of calls. The platform's state is an argument of each call.
--               Thread/Dispatch is the loop thread_main over a given list of rounds, each with the time
--               and the requests that wait; it returns what is run and served, in order. What
--               pipeline_msg_handle does to the tables is not part of this state.
--   Rules       pipeline.c, pipeline.h and thread.c on the rules of a table. Rules has the list of a table
--               (table_rule_add and the others), Match the matches with their union by table type,
--               Check the tests match_check, action_check and action_default_check, Convert the keys
--               of match_convert, and Calls the functions pipeline_table_rule_* of the main thread with
--               the handlers of the same requests in a running thread. The tables of DPDK are a
--               parameter, the record DataPlane, with their documented behaviour in the record
--               IsTableApi of Calls/Entries; which keys a table takes for the same is a
--               parameter of it. memcmp on two matches is equality of the matches. An
--               ACL match has ip_version 0, 1 or 2. The pipeline has been found, and is an argument.
--               Store and History are about lists of rules as functions, Sequences about sequences of
--               calls.
--   Requests    thread.c: the twelve requests that read counters or pass a setting on. Requests has the
--               handlers and the switch of pipeline_msg_handle, Requests/Calls the functions of the main
--               thread. Rules/Calls/Bulk is pipeline_table_rule_add_bulk.
--   Pipelines   pipeline.c: pipeline_table_create, and in Pipelines/Ports the creation of ports with
--               the devices they look up, in a build with RTE_LIB_KNI. The switches over table and port
--               types become functions (table_args, reader, writer) to what p.ops and p.arg_create say.
--   Tests       the theorems applied to concrete inputs.
--
-- Bounds: numbers are natural numbers with the wrap-around of the source's types written out. The loop
-- of parse_cpu_core runs on fuel, the number of characters left, and each round takes at least one. All
-- other loops are structural, on the string or on the number of rounds left.
--
-- Not modelled: the sockets, epoll and the kernel interfaces (I/O); parse_ipv4_addr and parse_ipv6_addr
-- (wrappers of inet_pton); main.c (start-up); cli.c (the comparison of tokens with command names); of
-- conn.c what only calls the kernel; of kni.c and cryptodev.c all but the lookups; pipeline_create and
-- thread_init; the P4 programs, the training scripts, and processing/moongen_src, which belongs to
-- another project.
pub mod Prelude
pub mod Libc
pub mod Parser
pub mod Registry
pub mod Swq
pub mod Mempool
pub mod Tap
pub mod Tmgr
pub mod Action
pub mod Conn
pub mod Link
pub mod Rules
pub mod Requests
pub mod Pipelines
pub mod Thread
pub mod Tests
