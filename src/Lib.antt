-- ===== src/Lib.antt =====
-- krafters: the executor of network tests for replicated logs (Paxos and Raft), and the Paxos node.
--
-- A test file, in a small language, is parsed into a list of calls; each call is checked and its
-- ids are resolved; what passes is executed over XML-RPC, against the network manager of each node
-- (tc and netem rules) and a test daemon that measures a number of appends.
--
-- Which file models which part:
--   Prelude, Prelude/Tests, Prelude/Lists, Prelude/Int: shared names, ltb and ==, length, indexing,
--     and Python's index into a list with a negative number.
--   Text: Python strings as lists of character codes (isdigit, int, str, split, replace, rstrip);
--     Numbers is about the digits of a number, Pieces about texts that are split.
--   Regex, Regex/Sound: the fragment of `re` that the parser uses, by derivatives; matching stands
--     for `pattern.match`, which accepts a line with a prefix in the language.
--   TestExecutor (test_executor.py):
--     Errors: TestException and outcomes; a Python error of any other class is `other`.
--     Line: the six patterns, get_times, get_params and the chain of tests in Parser.parse.
--     Parser: the while loop of Parser.parse; Steps and Total are about its end, Script, Rounds and
--       Unroll about its result.
--     Unwrapper: CommandUnwrapper; Draws, Resolved and Ids are about resolve_ids, RandomLinks
--       about the loops of modify_random_link, Failures about the commands as a whole.
--     Netem: NetemMaster and Executor over the record `Remote` of the servers that they call;
--       Requests is about modify_connections.
--     Queue: attach_line and the queue of main; TwoPhases is about its order.
--   Sets, Dict: Python's sets of integers and dictionaries, as lists.
--   Paxos (paxos/composable_paxos.py):
--     Messages: ProposalID with the order of tuples, where None is below every id as in Python 2, and
--       the message classes; Order has the laws of the order.
--     Acceptor, Proposer: the two classes, a method each; Answers is about the proposal of a proposer,
--       Leads about the promises of a quorum.
--     Learner: the class; Tallies is about its dictionaries, Quorum about the final value,
--       Complete about the votes of a quorum.
--     Instance: PaxosInstance and the dispatch of MessageHandler.receive over a run of messages, which
--       arrive in any order; Quiet, Promises and Reports are about the acceptor in it, Outbids about
--       the next proposal id.
--     ReplicatedValue (paxos/replicated_value.py): BaseReplicatedValue with its state file and what it
--       sends; Durable is about the file.
--     Node (paxos/resolution_strategy.py and paxos/sync_strategy.py over it, as the class in main of
--       paxos/custom_server.py): the timers are fields, which the environment fires. Handlers and
--       Chain are about the chain of instances, Backoff about the backoff window, Retransmits about what
--       is sent again.
--     Messenger (paxos/messenger.py): the two-way mapping of names and addresses, datagramReceived,
--       and a run of a node over the events of the reactor; Addresses is about the mapping.
--     Network: instances of composable_paxos.py that call each other over a network which loses,
--       repeats and reorders messages, as a step relation. Acceptors, Proposers, Leaders and Gathering
--       are about one class each, Replies about what is sent, Members about quorums, Sites, Acts and
--       Turns about the invariant of all nodes, Agreement about the final values. Progress, Liveness and
--       Resolves are about the way from `prepare` to a final value.
--     Master, Master/Leases, Master/Events (paxos/master_strategy.py): the lease over Node, for the
--       server of paxos/server.py. Kept and Entered are what a proposal and a new instance leave
--       alone, View is about the values of the chain, SingleRound about a value under a lease, Promises
--       and OnlyMaster about the acceptor, Leaks about the looping calls that get lost.
--     Client (paxos/custom_client.py): the thread of a client with its datagrams, and how
--       datagramReceived of paxos/messenger.py takes them apart; Proposals is about the order in which
--       the values are proposed.
--   NetworkManager (network_manager.py): NetemManager, a method each, over a shell; Commands is about
--     the commands of init_qdisc.
--   ConfigureDaemon (configure_daemon.py): what each served function runs and waits for.
--   Provisioner (provisioner.py): the nodes, their configuration files and the algorithms; Local is a
--     local cluster, Cloud what follows the start of the machines on the cloud. Ports and Ends are
--     about the ports, Contacts about the peers that paxos/custom_server.py reads from the files.
--   ConfigureTester (configure_daemon_tester.py): its requests; Faults is about where it stops.
--   TearDown (tear_down.py): what is killed and removed for a local cluster; Covers is about what
--     Provisioner has started.
--   TestDaemon (test_daemon.py): the append functions and TestManager.run; Runs is about the results,
--     Acks about the acknowledgements of a cluster, Iterations about the counter.
--   TestGenerator (test_generator.py): the lines of a test; Lines, Groups, FromTo and Links are about
--     what TestExecutor/Line reads them as, Repeats about the files of a repeated test.
--   Plots (generate_plots.py): the series of the raw and the mass plot, and the output file; Mass is
--     about the mass plot.
--
-- Loops and fuel. `parse`, `draw_values`, `select_links` and `main_loop` take fuel, and `none` says
-- that it ran out. A command goes through three calls of the queue, for its check, its execution and
-- the None behind it, so that the queue gets three rounds for each and one more. The draws end only for
-- a generator that is fair, those of a random link if every two draws come up behind one another. How much is enough for `parse` depends on the file.
-- `draw_port` gets a number of rounds for each port, which is enough for a system that offers a port
-- outside of the pool among so many sockets in a row. TestManager.run gets a number of
-- calls; as many as there are appends are enough if none raises. The loops that wait for a port are effects.
--
-- What stands for code that is not here: `Rng` is the stream of raw values of `random`, read modulo
-- the bound; `Remote` is the network managers and the test daemon, with a state of their own and any
-- answer. The network manager's `shell` gives what a command writes to its standard error, with a
-- state of its own. `os_port` gives the free port that the system binds a socket to, `metadata` the
-- attributes of a machine on the cloud, `vm_id` the names of the machines. `float` reads a number of a
-- plot, with the order `leb`. `dumps` and `loads` are the JSON text of a value under the master
-- strategy, `services` the clock and the databases of the test daemon, `decode` the handler and the
-- JSON text of a packet. All are parameters.
--
-- Not modelled: the output of print, the command line and the files that main opens. Texts are
-- ASCII. A set is a list without repetitions, in the order of insertion; Python iterates over a set
-- in the order of its hash table, so the order of requests holds for the order that is given.
-- In the Paxos node ids are numbers, as in the configuration of paxos/custom_server.py, and values
-- are texts. The copy of PySyncObj in pysyncobj is a library. A node of the network does not crash:
-- the state file is modelled on its own. The servers of paxos with client.py, which read arguments and
-- start threads, the calls of the cloud provider and the drawing of plots are not
-- modelled: the last two are libraries.
pub mod Prelude
pub mod Text
pub mod Sets
pub mod Dict
pub mod Regex
pub mod TestExecutor
pub mod Paxos
pub mod NetworkManager
pub mod ConfigureDaemon
pub mod Provisioner
pub mod TearDown
pub mod Plots
pub mod ConfigureTester
pub mod TestDaemon
pub mod TestGenerator
