-- ===== src/Lib.antt =====
-- MarketDataPipeline: the single-producer single-consumer queue, its benchmarks and the experiments on
-- concurrency and ownership beside it.
--
-- Parts of the program, and the modules that model them:
--   * spsc/SpscQueue.h, the ring buffer that hands items from one thread to another. `Spsc` has its
--     members, `try_push`, `try_pop`, `size` and `empty` as functions on a record, for use by one
--     thread; `Fifo` says what a queue promises. `Spsc.Threads` has the same functions one access to
--     shared memory at a time, as steps of a producer and a consumer; `Atomics` has the part of the
--     C++ memory model that they need (stale loads, release and acquire, races).
--     `Channel` says what such a queue promises to two threads that use it at once, as an interface,
--     `ConcurrentQueue`, which `Spsc.Threads.Refine` fills, and adds in `LiveQueue` that its calls can end,
--     which `Spsc.Threads.Live` fills.
--   * bench/spsc_bench.cpp tests and measures the queue. `SpscBench` has the loops of the concurrency test
--     over `Spsc.Threads`, and in its children `size_test`, the threads of the benchmark, the choice of
--     the best run and `main`. `SpscBench.Ends` is about how these threads return.
--   * bench/spsc_head_to_head.cpp measures the queue against those of other projects. `HeadToHead` has the
--     worker functions of its three test cases, each as the next call of a thread and what a return does to
--     its locals; `HeadToHead.System` runs two of them over two queues that fill `ConcurrentQueue`, and
--     `Stream`, `Echo` and `Bursts` are about one test case each. `Advance`, `Finish` and `Endings` are about
--     how the threads return, over two queues that fill `LiveQueue`. `HeadToHead.Wrappers` has the wrappers,
--     and `HeadToHead.Main` reads the command line, for which `HeadToHead.Main.Asks` says what it asks for.
--   * bench/counter_bench.cpp, counters under a mutex, atomic or one per thread: `CounterBench`.
--     `CounterBench.Report` has the times that it keeps and prints.
--   * bench/pingpong_bench.cpp, two threads that hand a flag to and fro, and `main`: `PingPong`.
--   * bench/bench_utils.h reads the command line (`BenchArgs`; `main` of bench/pingpong_bench.cpp has a copy),
--     the frequency of a core and the time stamp counter (`BenchUtils`; `BenchUtils.Platforms` for the branches
--     of its `#ifdef`).
--   * `Samples` has `std::sort` and the places of the sorted array that the benchmarks print.
--   * experiments/cas_spinlock.cpp, a counter under a lock made of one flag, and the times of the
--     threads: `Spinlock`. `Spinlock.Sampled` and `Spinlock.Report` are about what is stored and printed.
--   * experiments/broken_aba.cpp, a lock-free stack and the ABA failure of a naive pop, which `main`
--     provokes: `LockFreeStack`, for one thread at a time and for this interleaving. `LockFreeStack.Threads` has
--     the same functions one access at a time, as steps of any number of threads, with the memory orders of the
--     head: its children `Inv`, `Steps` and `Order` are about the nodes in the stack, `Races` about the reads
--     of a node's members that may be data races.
--   * experiments/move_semantics.cpp, an array with the five special members: `Buffer`, and sequences of
--     their calls: `Buffer.Calls`.
--   * experiments/unique_ptr.cpp, a smart pointer over the free store of `Memory`: `UniquePtr`.
-- `Base` has what they share, with the induction on a run to an end in `Base.Descent`; `Tests` has concrete
-- runs.
--
-- Correspondence: functions and members keep their names. In `Spsc.Threads`, `load_tail_own`,
-- `load_head`, `write_buf` and `publish_tail` are the accesses of `try_push` in order, `load_head_own`,
-- `load_tail`, `read_buf` and `publish_head` those of `try_pop`; `push_now` and `pop_now` are
-- these accesses one after the other, with the newest value at each load. In `Spinlock`, `advance` is the loop of
-- `increment_counter` with `cas_counter_lock` and `cas_counter_unlock` in it. The members of
-- `UniquePtr` are functions on the whole program: its variables and the free store.
--
-- Numbers: an index of the queue is a number below 2 ^ 64 and `add_size` and `sub_size` wrap; a
-- capacity is a power of two below 2 ^ 64, as `static_assert` demands (0 apart). An `int` of the
-- concurrency test is its pattern of 32 bits. The counters of the other programs stay below 2 ^ 63 by
-- their loops' bounds and are unbounded here.
--
-- Loops: a thread's loop is a step relation, so nothing bounds its iterations; where a run to the end
-- of all threads is built, its fuel is a measure of the successful calls or steps that are left, plus
-- 1, and each step that is chosen makes the measure smaller. A loop on a weak compare-and-exchange in
-- `LockFreeStack` takes the list of its attempts, each of which may fail without a reason; a list in
-- which one attempt does not is enough when no other thread runs.
--
-- Code of other projects: the queues of rigtorp, folly, moodycamel and boost are parameters, with what their
-- documentation says of those of rigtorp and folly as the record `FrontQueueLaws`. What the clock gives and
-- the results of the arithmetic on `double` are parameters too.
--
-- Simplifications: `Atomics` fits locations that one thread stores to. `Spinlock`, `PingPong` and
-- `CounterBench` take the accesses in one order, which the acquire and release of the flags, the mutex
-- and the indivisible `fetch_add` give. In `LockFreeStack.Threads` a load of the head may read any
-- value that it has had, more than coherence lets it, and a thread knows the writes to a node only if
-- it pushed the node or acquired its address, less than happens-before gives, so that no run is left
-- out and no data race missed; the functions of `LockFreeStack` itself, and `Aba`, take the accesses in
-- one order. The free store never hands out an address twice, and allocation does not fail. The array
-- of a queue is not initialised: it holds whatever the argument `junk` says.
--
-- Not modelled: the calls of the operating system, with pauses and the calibration of the time stamp
-- counter (what pinning to a core and the governor file lead to is in `BenchUtils.Platforms`); the
-- conversion of cycles to nanoseconds; printing, but for what the definitions above return;
-- `randomized_array`, which nothing calls; feed, lob and pipeline, which hold no code; scripts and build files.
pub mod Base
pub mod Fifo
pub mod Atomics
pub mod Channel
pub mod Samples
pub mod Spsc
pub mod SpscBench
pub mod HeadToHead
pub mod BenchArgs
pub mod BenchUtils
pub mod Memory
pub mod UniquePtr
pub mod LockFreeStack
pub mod Spinlock
pub mod CounterBench
pub mod Tests
pub mod Buffer
pub mod PingPong
