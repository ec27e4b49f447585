-- ===== src/Lib.antt =====
-- aiomisc: utilities for asyncio programs. This development models the parts that hold the library's
-- own logic, each in a module of its own, and proves what makes them correct.
--
-- Dns models the zones of aiomisc/service/dns: Text and Names the names and their labels
-- (DNSStore.get_reverse_tuple), Tree the radix tree (tree.py), Types and Records the enumerations and
-- DNSRecord (records.py), Zone the DNSZone (zone.py) and Store the DNSStore (store.py). Record data,
-- dnslib's classes, are a type parameter with an equality test and a test of whether they hash, which
-- those of TXT do not; Creation makes records of them by a
-- parameter for dnslib's constructors (records.py), and Service answers requests (service.py) with
-- dnslib's messages as a record of operations. A set of records is a list without
-- repeated records, a dict is an association list.
--
-- CircuitBreaker models aiomisc/circuit_breaker.py: Data its settings, buckets and state, the parent
-- every method. Time is a number of ticks, a ratio a fraction of two numbers. The context manager is
-- two steps, enter and leave, so that the histories of Histories may interleave the calls of
-- call_async. The random draw of the recovering state is an argument.
--
-- Backoff models aiomisc/backoff.py: the constructor and the decorators in the parent, the loop of
-- BackoffExecution.execute in Loop. The wrapped coroutine is a function from the number of the try to
-- how long it takes and how it ends, and how long it takes to end once it is cancelled:
-- asyncio.wait_for is modelled as it is documented, and waits for that end. A coroutine that swallows
-- its cancellation is not modelled. The loop runs on
-- fuel; the theorems on its end say how much is enough.
--
-- ThreadPool models aiomisc/thread_pool.py: the work items, the channel, the turns of a thread and the
-- executor, with Histories for any order of what callers, threads and the event loop do. A function's
-- result, its duration and whether the loop is closed, also at the shutdown, come with the event.
-- shutdown's wait for the
-- threads is left out: it changes no state.
--
-- Pool models aiomisc/pool.py in steps from one await to the next; the abstract methods of the pool end
-- as the step says, the clock and the random draw come with it. close is a step too, and the invariant
-- is that of a pool before it.
--
-- Recurring models aiomisc/recurring.py and the strategy of aiomisc/periodic.py: the loop over a list of
-- what its turns meet (closed loop, strategy, duration, end of the callback). Lifecycle models start and
-- stop of PeriodicCallback (aiomisc/periodic.py) with the end and the done callback of its task as events.
--
-- Aggregate models aiomisc/aggregate.py: which calls go together in a batch, and what the batch's
-- futures get when the aggregated function ends. The wait for the batch's event or time is the event
-- times_out; the lock that lets one call run the function is not modelled, the theorems hold for runs of
-- the function in any order.
--
-- Context models aiomisc/context.py: the storage of futures by key, and the setter that the event loop
-- runs. The table of contexts by event loop is left out.
--
-- Worker models aiomisc_worker: Protocol the packets (aiomisc_worker/protocol.py), with pickle as a
-- parameter and a file, an asyncio stream and a socket as ways to read; Process a worker
-- (aiomisc_worker/worker.py: execute, worker, bad_initializer); Supervisor the process that forks them
-- (aiomisc_worker/forking.py: fork, main, at_exit). The read loop of a socket runs on as much fuel as
-- bytes are asked for, since each round reads one at least or raises. How a function ends and whether a
-- packet can be sent are functions; the numbers of processes come from a parameter for os.fork.
--
-- WorkerPool models aiomisc/worker_pool.py in steps from one await to the next: the parent has the pool,
-- __handle_client up to its loop and close; Tasks the turns of a handler and create_task; Histories any
-- order of steps. Futures are numbers with a state that steps overwrite as the code does, so that the
-- code's tests of done() are what keeps them. A worker is seen by its greeting and its answers; Remote
-- and Calls put the pool and the worker of Worker.Process together. HMAC is a parameter, and so is what
-- asyncio's set_exception raises for an exception that it refuses. Whether a call that is cancelled has
-- gone on to await its result comes with the step.
--
-- Entrypoint models aiomisc/entrypoint.py: start_services with the calls of _start_service as a group,
-- and graceful_shutdown with stop_services; what a service's start does, and whether a receiver of
-- pre_stop raises, comes as an event. The histories call start_services one at a time, and for services
-- whose start does not run, so that one group is enough. The end that
-- the owner of the event loop adds (_cancel_background_tasks and the executor) is left out.
--
-- Signal models aiomisc/signal.py; the entry point of Entrypoint only records which signals it calls.
--
-- Utils models chunk_list and select of aiomisc/utils.py; its set_exception stands in WorkerPool, which
-- calls it. chunk_list runs on one round more than there are items, and each round takes one at least.
--
-- Base holds what the parts share: equality tests, lists, results and exceptions, dicts and sets.
-- Tests holds concrete runs.
--
-- Not modelled: sockets, TLS, system calls that start and signal processes, logging, file I/O; the
-- network services and the periodic, cron and watchdog services around the callbacks, which call asyncio;
-- statistics as objects (counters.py), where plain counters in each state stand for them; the process
-- pool, which hands on to concurrent.futures.
pub mod Base
pub mod Dns
pub mod CircuitBreaker
pub mod Backoff
pub mod ThreadPool
pub mod Pool
pub mod Recurring
pub mod Aggregate
pub mod Context
pub mod Worker
pub mod WorkerPool
pub mod Signal
pub mod Entrypoint
pub mod Utils
pub mod Tests
