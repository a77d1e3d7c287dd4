-- ===== src/Lib.antt =====
-- powerman: a daemon that powers the nodes of a cluster on and off through power control devices.
-- A client sends a line with a command; the daemon puts actions for it on the queues of the devices
-- that power the nodes; each action runs a script against its device, and calls back when it is
-- done; after the last callback the client gets its response. This library models that path.
--
-- Base holds shared names and lemmas (Base.Tests: Boolean tests; Base.Lists: lists), CStr C strings,
-- and Samples the concrete values of the tests, which stand in the modules called Tests.
--
-- Hostlist: what the program uses of liblsd/hostlist.h, as a record of operations with the behaviour
--   that their header documents. A hostlist is the sequence of hosts that its iterator yields.
-- Conf (powermand/parse_util.c): nodes and aliases. conf_exp_aliases runs on fuel; one more than the
--   number of hosts is enough, as each round takes a host away (Conf.Aliases).
-- Pluglist (libcommon/pluglist.c): the plugs of a device and the nodes that they power. Map is about
--   mapping by plug names, Assign about mapping to the free plugs.
-- Argv (libcommon/argv.c): argument vectors. Words describes what argv_create splits a line into.
-- Arglist (powermand/arglist.c): the target nodes of a command and what was learned of them, in a
--   store with reference counts, since the command and its actions share one. Nodes is about its
--   table.
-- Xregex (libcommon/xregex.c): match objects. regexec() is a parameter.
-- Commands (powermand/device_private.h and device.c): the indices into the script array, and the
--   "all" and "ranged" versions of a script.
-- Client (powermand/client.c, libcommon/client_proto.h): the clients, and the state that the parts of
--   the daemon share (World). Client.Finish has the callbacks (_act_finish, _telemetry_printf),
--   Client.Reply the query replies, Client.Input _parse_input with all it calls, and Client.Poll
--   the clients' side of the main loop (Input, Clients and Serve are about its parts, Balance about
--   the whole); its input loop runs on fuel, and one more than the bytes of input is enough. A
--   response is a value of a data type that has a constructor for each format of client_proto.h;
--   Client.Wire gives its text. The World also holds the configuration, whose nodes the reply to a
--   query of the nodes sorts. The output of a client (Output) is the responses that are not written
--   in whole, and how much of the first is written; the loss of text when a buffer of a client is
--   full is left out. An id is taken from a counter that wraps around at INT_MAX (next_cli_id); what is shown of ids is
--   for rounds in which it does not.
-- Device (powermand/device.c, device_private.h): the devices, their scripts and actions.
--   Device.Enqueue: dev_check_actions, dev_enqueue_actions and what they call, and _rewind_action.
--   Targets is about the actions for the targets of a command, Check about the check before them.
--   Device.Timer and Device.Connect: time stamps, timeouts, retries, connecting and disconnecting.
--   Device.Statement: _process_stmt and the handlers of the statements.
--   Device.Process: _process_action. Its loop and its inner loop run on fuel; the weight of the queue
--   (Device.Process.Weight) counts the rounds that its scripts can take at most, and is the fuel.
--   Runs has the equations of a round, Steps, Work and Bounded are about the weight after a round,
--   Ends about the whole loop, Expiry about timeouts; Callbacks and Balance count the callbacks that
--   a queue owes clients.
--   Device.Poll: dev_pre_poll, dev_post_poll and what they call; the I/O is a parameter (Io). Calm is
--   about handling, reconnecting and pinging a device, Silent about logins, Balance about the whole
--   round.
--   Env is what the module calls elsewhere: the clock, regexec, cbuf_write, hsprintf, the connection
--   methods and the hostlist; they are parameters.
-- Tcp (powermand/device_tcp.c): connections over TCP, one of the connection methods. Tcp.Telnet is the
--   telnet state machine: Tokens describes its input, Loop and Preprocess are about its loop.
--   Tcp.Connect connects to one of the addresses of a server (Addresses). System calls are parameters.
-- Libpowerman (libpowerman/libpowerman.c): the client library, the other end of the protocol.
--   Libpowerman has the parsing of responses, Handle what uses a connection, Connect what opens one.
--   Lines and Codes are about the responses, Transfer about a whole command, Status (with StatusLine)
--   and Nodes about the two queries. read() and write() are lists of what they will return.
-- Powerman (powerman/powerman.c, xreadstr of libcommon/xread.c): the command line client. Powerman has
--   the commands that its options make (Options, Words and Requests are about what the daemon reads of
--   them), Powerman.Session the session with the daemon. The bytes that the server will send are
--   given, and in what pieces they come; a write takes the whole text. Read is about reading a line
--   and an expected text, Lines and Respond about an answer, Execute about the whole session. The
--   loop of _process_response has one unit of fuel more than there are bytes, and each round takes
--   bytes; that of _expect one more than the text has, and each round gets a byte, unless the server
--   has closed the connection, where the loop has no end (Read).
-- Plmpower (plmpower/plmpower.c, xread_all of libcommon/xread.c): the exchange of commands with an
--   Insteon modem, whose bytes are given; Frames is about waiting for a response. plm_recv and
--   plm_docmd have one unit of fuel more than there are bytes, and each round takes bytes.
--
-- Times are natural numbers of microseconds; 0 is a timer that is clear. Counters are natural
-- numbers, without the limits of an int: the counts of pending actions and retries stay far below
-- them. An assertion that fails, and a NULL pointer that is read, set a flag of the World (aborted),
-- and the model goes on; the model does not follow the program after that.
--
-- Not modelled: listening sockets, ptys and serial lines, the configuration file's grammar, debug
-- output, memory management other than the ArgLists' counts, the liblsd library, the connecting and the
-- genders of powerman, the rest of plmpower, and the programs httppower and
-- snmppower.
pub mod Base
pub mod CStr
pub mod Hostlist
pub mod Conf
pub mod Pluglist
pub mod Plmpower
pub mod Powerman
pub mod Argv
pub mod Arglist
pub mod Commands
pub mod Client
pub mod Xregex
pub mod Device
pub mod Tcp
pub mod Libpowerman
pub mod Samples
