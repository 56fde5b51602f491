-- ===== src/Lib.antt =====
-- tflib, a C library of strings, lists, codecs and an event loop, and its models.
--
-- The parts and the files that model them:
-- Common: what the other files share: Boolean tests and their lemmas (Common/Tests), lists over
--   native numbers (Common/Lists), reads of memory (Common/Bytes), integers (Common/Int), and facts
--   on bit operations (Common/Bits).
-- ArrayList: the array list of tflib/tf_list.c and tf_list.h. `tf_list_push` is `push`,
--   `tf_list_insert` is `insert` and so on; the `2` variants of pop, insert, remove and over do the
--   same on C strings. The state is the array of cells that was allocated, `anum`, `start` and
--   `num`; a cell points to a region of bytes. `Holds` (ArrayList/Holds) says which strings a list
--   holds, and the files below ArrayList say what each call does to them. ArrayList/Serial is
--   `tf_list_dump` and `tf_list_load`, ArrayList/Whole copies, clears and searches, ArrayList/Order is
--   the comparison that `tf_list_sort` and `tf_list_bsearch` hand to the libc.
-- Vnum: the macros TFSETVNUMBUF, TFREADVNUMBUF and TFCALCVNUMSIZE of tflib/tf_util.h, which the
--   list's dump and load use.
-- Str: the extensible string of tflib/tf_string.c.
-- Base64: tflib/expert/base64.c.
-- Text: the string utilities of tflib/tf_util.c; Text/Split splits into a list and joins
--   one, Text/Number reads integers.
-- Codec: the hexadecimal and packed decimal codecs at the end of tflib/tf_util.c.
-- EventLoop: tflib/ae/ae.c. The file events are in EventLoop, the time events in EventLoop/Timers,
--   the poll of `aeProcessEvents` in EventLoop/Poll, and the whole of it, with
--   `processTimeEvents`, in EventLoop/Process.
-- Conf: tflib/tf_conf_file.c. A line is parsed in its buffer, with the writes of the loop over a pair;
--   `cfg_create` reads the lines of `tf_readlines` of tflib/tf_file.c, and the `cfg_get_*` calls look a
--   key up. Conf/Lines, Conf/Pairs, Conf/Groups and Conf/Lookup are about these steps. The lists and
--   strings that it uses are those of ArrayList and Str, taken as the lists of what they hold.
-- Socket: the reads and writes of tflib/tf_socket.c that go on until a count is reached, and its
--   numbers in network order; Socket/Opening has the calls that connect, listen and accept, and
--   Socket/Opening/Keeping is about the descriptors that they hold.
-- Format: the formatted print `tf_vstrprintf` of tflib/tf_string.c, and `tf_num2strbin` of
--   tflib/tf_util.c, which its `%b` calls. Format/Texts says which text a format with its arguments is,
--   Format/Conversions and Format/Print that it is appended, Format/Escapes is about `%@` and `%?`, and
--   Format/Binary about the digits.
-- Files: the reads, writes and copies of whole files of tflib/tf_file.c, on the answers of Socket.
-- Nac: the program tfnac, which seats connected clients in slots, hands their requests to a message
--   queue and writes the responses back: tfnac/main.c, main.h and config.c. Nac has the
--   peers, `close_peer`, `accept_tcp_handler` and `life_cycle_handler`; Nac/Handlers the requests and
--   responses, with `ipc_write_queue` of tflib/tf_ipc.c. It calls the event loop's
--   `create_file_event` and `delete_file_event`, and what the reads of Socket return is an argument of
--   its handlers. Nac/Links says when a state is consistent, Nac/Reachable puts the handlers together as
--   steps, Nac/Cycles is about timers and Nac/Packets about bytes. Nac/Startup is `initialize` of config.c, with
--   the files of Conf; Nac/Launch is `main` with its options, up to the call of `aeMain`, with the server's
--   socket of Socket/Opening and the loop of EventLoop; Nac/Launch/Serving and Nac/Launch/Whole put the start and the
--   handlers together. Nac/Limits is `adjust_peers_limit` of config.c, Nac/Signals `signal_handler` of main.c.
-- Malloc: the accounting of tflib/tf_malloc.c, built without HAVE_MALLOC_SIZE.
-- Rate: the rate limiter of tflib/tf_util.c.
-- Hash: the 32-bit hash of tflib/expert/tf_hash.c.
-- Checks: concrete inputs.
--
-- Memory is explicit. A region is the list of its bytes; a read or a write out of its bounds, a read of
-- a cell that nothing was written to, and an overflow of an `int` are `none`, so that a result that is
-- `some` says that none of these happens. `Returns m P` says that `m` is some result, of which `P`
-- holds. A C string is given by its bytes before the NUL. Allocation succeeds. Also `none` are a
-- format with 30 flags, whose conversion is written past its buffer; a size that wraps in the allocator;
-- a comparison of keys that reads past one; and an address that is printed as a string, or a path without
-- an end, in a connect. The lines and pairs of a configuration file, the counts of Codec and of matches in
-- Text, and the numbers of events and of bytes that one call of the system moves are not bounded here; the
-- program counts them in an `int`, and the models speak of it where there are fewer than 2^30.
--
-- Fuel: the loop that writes a number has 5 rounds, enough for an `int`; the loop that grows a string
-- has 1, since it takes the wanted size where the double is not enough; the load of a list has one
-- round a byte of the dump, and a round takes a byte at least. Running out of fuel is `none`.
--
-- The loop over the time events looks at the clock once a round, and the readings are a list; where it
-- ends first, the loop waits, which is `none`. How many are enough is among the results, as is how many
-- rounds `adjust_peers_limit` takes; below a limit of 48 it takes more than any fuel here.
--
-- Callbacks, finalizers and client data of the event loop are numbers that stand for pointers. The answer of the
-- polling layer (ae_epoll.c and its kin) to a registration is a parameter. The time is an argument, as
-- is a delay, which is not negative. What a callback or a finalizer makes of the loop is a parameter.
--
-- The answers of the system to the calls of one `tfnet_read` or `tfnet_write` are a list; where it ends
-- before the loop does, the call waits, which is `none`. So are those to the calls of Files, where of the
-- errors only `EINTR` is one to retry. What the libc's `sprintf` writes for a number is a parameter of
-- Format. The state of tfnac records the descriptors it
-- closed, the messages it queued and the bytes it wrote, the last one first. A file descriptor, an
-- application's id and a delay are not negative.
--
-- Not modelled: fractions and dates of tf_util.c, `aeMain` and `aeWait` of ae.c, what the allocator's
-- blocks contain, the 64-bit hash; threads, shared memory, the paths, locks and directories of
-- tf_file.c, logging, socket options and the printing of addresses, which are system calls; what tfnac does
-- behind the loop, and its console, which is empty; md5 and DES, which are copies of public code.
pub mod Common
pub mod ArrayList
pub mod Str
pub mod Vnum
pub mod Base64
pub mod Text
pub mod Codec
pub mod EventLoop
pub mod Conf
pub mod Socket
pub mod Nac
pub mod Files
pub mod Format
pub mod Hash
pub mod Malloc
pub mod Rate
pub mod Checks
