-- ===== src/Lib.antt =====
-- The runtime system reconverse: message queues, collectives and tables of the Converse layer, in
-- C++.
--
-- A run is a number of processes (called nodes in the source) with equally many PEs each. A PE
-- takes messages from its queues and calls the handler whose number is in the message's header.
-- The parts modelled here meet at the header and at the numbering of PEs:
--
--   PrioQueue     src/queueing.cpp. The queue of a PE: Queue is QueueImpl, with the map of levels,
--                 the zero level, the size and the count of kept empty levels; a Handle is a
--                 pointer that may be null, or cleared by QueueDestroy. push, push_front, pop,
--                 top, top_priority, size_of and is_queue_empty are QueuePush and so on, and
--                 PrioQueue/Strategy is CqsEnqueueGeneral of src/scheduler.cpp. PrioQueue/Spec is
--                 the sequence of messages by priority that clients see; PrioQueue/Order to
--                 PrioQueue/History are about how the queue stands to it.
--   Machine       CmiNodeOf, CmiRankOf and CmiNodeFirst of src/convcore.cpp.
--   SpanTree      The sender-rooted tree of CmiSpanTreeForwardToNodes and CmiBcastSendToPeers
--                 (src/collectives.cpp) and the CST macros of include/converse.h. SpanTree/Relay
--                 follows the relay, SpanTree/Parents compares children and parents.
--   Broadcast     CmiSyncBroadcast, its relay handler and the header fields that they swap;
--                 Broadcast/Nodes has the same for nodes, Broadcast/Shared the broadcast within a
--                 process with the reference count of its buffer (CmiForwardMsgToPeers and CmiFree
--                 of src/convcore.cpp).
--   Reduce        CmiReduce, CmiListReduce and the handlers of arriving contributions, with the
--                 table of reductions in progress; Reduce/Ids is about the numbering, Reduce/Nodes
--                 has CmiNodeReduce and its handler and follows any calls on the table of a
--                 process, Reduce/Rounds runs one reduction on one PE.
--   ListSend      CmiSyncListSend, CmiListSendToProcess and CmiFanoutHandler of
--                 src/collectives.cpp. A message is its header fields, the bytes behind them, and
--                 a trailer with its place in the buffer. ListSend/Process follows the sends to
--                 one process, ListSend/Delivery all of them.
--   Countdown     CmiCreateDecrementToEnqueue, CmiDecrementCounter and CmiResetCounter of
--                 src/convcore.cpp, the counters that send a message at 0; Countdown/Rounds
--                 follows a counter through resets.
--   Groups        The groups of src/collectives.cpp: the table of each PE, CmiEstablishGroup,
--                 CmiGroupHandler, CmiLookupGroup and CmiSyncMulticast. Groups/Found follows the
--                 definitions of groups to all PEs, Groups/Multicast the multicasts, over
--                 ListSend.
--   SeedBalancer  src/cldb.rand.cpp and src/cldb.cpp: CldEnqueue, CldNodeEnqueue and the others
--                 down to their last call, an Out, and the two handlers. SeedBalancer/Restore is
--                 about the parked handler, SeedBalancer/Places about the random choice.
--   Futures       src/futures.cpp: the cells of a PE, its threads as phases, and the values under
--                 way, with the pointers that chain waiting threads. Futures/Chains reads a chain
--                 as a list, Futures/Values traces the values to their sets, Futures/Wakes is
--                 about waiting and awakening.
--   Barrier       src/barrier.h as CmiNodeBarrier of src/convcore.cpp uses it: the accesses of the
--                 PEs of a process as steps. Barrier/Rounds keeps the rounds apart,
--                 Barrier/Progress finds a PE that can move, Barrier/Totals adds up over the PEs.
--   MessageQueue  AtomicAccessControl of src/queue.h: the accesses of the producers and the
--                 consumer of a PE's queue as steps; MessageQueue/Counters is about its counters.
--   MessageTable  src/msgmgr.cpp: CmmPut, CmmFind and the tag matching. The stored tail link is a
--                 Link.
--   Conditions    src/conv-conds.cpp: registering, cancelling and raising. Conditions/Handles is
--                 about the handles, Conditions/Raise about the calls of a raise, Conditions/Asked
--                 about what they register. Conditions/Timers is the heap of CcdCallFnAfter, the
--                 periodic conditions and CsdPeriodic: Conditions/Timers/Due is about the calls
--                 from the heap, Conditions/Timers/Polls about the polls between two reads of the
--                 clock, Conditions/Timers/Periodic about the periodic conditions.
--   TaskQueue     include/taskqueue.h: the accesses of TaskQueuePush, TaskQueuePop and
--                 TaskQueueSteal as a step relation. TaskQueue/Limits and TaskQueue/Bounds keep
--                 the indices apart, TaskQueue/Accounts and TaskQueue/Conserve count the tasks.
--                 TaskQueue/Victim is the choice of the queue to steal from in StealTask,
--                 src/conv-taskq.cpp.
--   Registry      src/scheduler_registry.cpp: the slot table that add_list_of_handlers fills and,
--                 in Registry/Groups, the groups that add_handler keeps. Registry/Share and
--                 Registry/Fill are about the shares of the handlers and their slots, Registry/Due
--                 about the groups.
--   Sources       A record Queues of the sources of messages, and the takes of
--                 src/scheduler_take.h, and what CmiDeliverIpcInbox (src/cmishmem.cpp) and the
--                 network bring.
--   Scheduler     src/scheduler_registered.cpp with the idle functions of src/scheduler.cpp: a
--                 Sched for the state of a PE, an iteration of the loops, and
--                 CsdSchedulePollRegistered. The record Env is what the loops do not decide:
--                 handlers, conditions, the lock, the options. Scheduler/Quiet, Vain, Polls, Sweep
--                 and Idle are about iterations that find nothing, Scheduler/Fair and
--                 Scheduler/Order about what is run, and in which order. Scheduler/Traverse
--                 carries a property of the takes over to an iteration; Scheduler/Takes, Backlog
--                 and Ends count the messages.
--   OldScheduler  src/scheduler_old.cpp, on the same sources: an iteration of each loop.
--                 OldScheduler/Waits is about the waiting of a PE's own queue, OldScheduler/Empty
--                 about the end of CsdSchedulePollOld.
--   Randomized    src/scheduler_randomized.cpp: filling the pool and drawing from it.
--   Arguments     The CmiGetArg functions and CmiDeleteArgs of src/convcore.cpp. Arguments/View
--                 reads argv up to the null pointer, Arguments/Options is about the forms of an
--                 option, Arguments/Search about the whole search, Arguments/Exact about the
--                 options that take a string or no value.
--   Prelude       Numbers, lists, integers and counting that they share.
--
-- Integers. Indices, sizes and PE numbers are natural numbers, and priorities and tags integers,
-- where the source uses int far from its ends; words of a fan-out message keep their width of 32
-- or 16 bits, and reduction ids theirs.
--
-- Fuel. The walk along the waiting threads of a future has one unit for each thread of the PE,
-- since none waits twice. A relay of a broadcast has one unit for each hop that may be left: the
-- tree of processes is no deeper than their number. The loop over the processes of a list send has
-- one for each destination, since a turn takes at least one. The search for an empty slot has 64,
-- the number of slots, and the trimming of the slot shares one for each slot that there is, as
-- each turn takes one away. The other loops are structural. CsdSchedulePollRegistered has one for
-- each iteration; of the other schedulers' loops one iteration is modelled.
--
-- Parameters. The third-party queue under a PE's queue (a ConcurrentQueue: an element that it
-- gives was in it, and an attempt may fail), the info and pack functions of seeds, what a handler
-- or a condition callback does to the sources, whether a lock is to be had, the random numbers of
-- std::mt19937_64, the element that std::priority_queue gives first of several of the same time,
-- and what sscanf makes of a string are arguments of the definitions. The converse queues of the
-- schedulers are lists of the messages that a pop would find: a message that another thread pushes
-- counts from the time that its enqueue is visible, also where the queue's count is ahead of it.
--
-- Not modelled. Memory is not freed and allocation does not fail. The network carries each send to
-- the PE that it is for; how (shared memory, the LCI and LCW libraries, a persistent channel) is
-- left out, and so are topology, user-level threads and start-up.
pub mod Prelude
pub mod PrioQueue
pub mod Machine
pub mod SpanTree
pub mod Broadcast
pub mod Reduce
pub mod MessageTable
pub mod TaskQueue
pub mod ListSend
pub mod Conditions
pub mod Countdown
pub mod Groups
pub mod MessageQueue
pub mod Barrier
pub mod Futures
pub mod SeedBalancer
pub mod Registry
pub mod Sources
pub mod Scheduler
pub mod OldScheduler
pub mod Randomized
pub mod Arguments
