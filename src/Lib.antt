-- ===== src/Lib.antt =====
-- A verification library of OpenPaw: the parts that decide who answers a message, what runs when, and
-- how much may run at once.
--
-- The parts and how they interact. A message that comes from a channel is routed to an agent, and its
-- session gets a key (Routing). An agent may hand work to background tasks (Subagent), alone or as the
-- batches of a plan of dependent tasks (Plan); tasks and agents talk through mailboxes (Mailbox) and ask
-- the user for approval (Approval). What an agent keeps in mind for a while is in a bounded memory (Lru).
-- Scheduled jobs start shell commands and agents by the clock (Cron).
-- A session holds the agent of a conversation (Session). The agent keeps the messages of the
-- conversation, which are pruned and compressed when they grow too long (History), and a to-do list
-- (Todo). Messages between channels and agents go through the bus (Bus); an event starts what its
-- watchers ask for (Events). Tools ask whether a path or a host is allowed (PathGuard, NetGuard).
-- Every call of a language model is retried and handed to other providers (Provider), and passes the
-- rate limiter (Limiter) and the circuit breaker (Breaker) of its provider. Each part keeps its state
-- behind locks, and a model's operation is what happens between taking a lock and giving it back. A plan
-- runs on the state of the background tasks, an event on the bus, a provider on its breaker.
--
-- Which file models which part:
--   Prelude, Prelude/*  the names and small lemmas that all share: tests on numbers, lists measured by
--     numbers, keys with a Boolean equality, text as code points.
--   Dict, Dict/Laws  `HashMap` as an association list. The order of the list stands for the order of
--     iteration; a theorem about every list holds for every order.
--   Scan  what the standard library does with text: trimming, splitting, searching, numbers.
--   Breaker, Breaker/*  src/providers/circuit_breaker.rs: `CircuitBreaker` is the record `CircuitBreaker`,
--     its methods have their names. Validity, Trip and Probe hold the proofs.
--   Limiter, Limiter/*  src/providers/rate_limiter.rs: `ProviderWindow` and `RateLimiter`;
--     `check_and_wait` returns the wait instead of sleeping.
--   Approval, Approval/*  src/approval.rs: `ApprovalManager`; what is sent on the channel of an approval
--     is kept as a log of verdicts.
--   Mailbox, Mailbox/*  src/agent_mailbox.rs: `AgentMailbox`.
--   Routing, Routing/*  src/agent_routing.rs, with the types it reads of src/config_types.rs: Keys has the
--     ids and session keys, Matching the tests of a binding, Resolve the seven tiers and the route.
--   Subagent, Subagent/*  src/subagent.rs: Launch has `spawn_with_agent_internal` and
--     `launch_task_locked`, Drain `drain_pending` by lock sections, Ops the end of a task, `cancel_task`,
--     `monitor_tick` and the rows of events, each of which runs to its end before the next. Sections has
--     the lock sections of drains and other operations, in any order. Capacity, Queue, Waiting, Final,
--     Edges and Race hold the proofs.
--   Plan, Plan/*  src/plan.rs: `PlanManager::topo_sort`, loop by loop. Times, Edges, Keys, Kahn and
--     Rounds carry the proof of the loops, Order and Acyclic what they come to. Execute has the loop over
--     the batches on the model of the background tasks, Review `run_final_review` and the end of a plan,
--     Late and Ends the proof that it comes, Outcomes, Spawned and Success what a completed plan has done.
--   Cron, Cron/*  src/cron.rs: Field has `parse_cron_field`, Expression the rest from
--     `normalize_expression` to `parse_duration`, Data and Jobs `CronScheduler`. Marks, Table, Next,
--     Once, Log and Overlap hold the proofs.
--   Lru, Lru/*  src/memory/engines/lru.rs: `LruMemory`; Count and Agreement hold the proofs.
--   Provider, Provider/*  src/providers/reliable.rs, src/providers/fallback.rs and
--     src/providers/error_classify.rs, with `SharedRetryState` and `Provider` of src/providers/mod.rs and
--     the limits that src/token_estimator.rs reads from errors: Classify, Reliable and Fallback have
--     the code; Kinds, Spent, Budget, Rotation, Moves and Exhausted hold the proofs.
--   History, History/*  src/agent/compaction.rs, with the messages of src/providers/mod.rs and the
--     estimates of src/token_estimator.rs: Pairs has `sanitize_tool_pairs`, Cut
--     `find_tail_cut_by_tokens`, Prune `prune_old_tool_results`, Compress `compress` and
--     `trim_history`, Serialize `serialize_for_summary`. Paired, Sanitized, Bounds, Pruned, Ascii and
--     Compressed hold the proofs.
--   NetGuard, NetGuard/*  src/net_security.rs; PathGuard, PathGuard/*  src/tools/path_security.rs.
--   Todo, Todo/*  src/tools/todo.rs: `TodoStore::write`.
--   Bus, Bus/*  src/bus.rs, with `OutboundStage` of src/streaming.rs, over two channels that are
--     arguments.
--   Events, Events/*  src/events.rs: `EventRegistry`; Patterns and Registry hold the proofs.
--   Session, Session/*  src/session.rs: `SessionManager`; `process_message` is the pair `begin_turn` and
--     `end_turn`. Idle, Turns, Places and Lifetime hold the proofs.
--   The module Tests of each part runs it on examples and applies its theorems to them.
--
-- Numbers. Clocks and counts are natural numbers; a u32 or u64 that is counted up wraps, `% 2 ^ 32` or
-- `% 2 ^ 64`, as in the release profile. An i64 of src/cron.rs is kept as its 64 bits; moments are at or
-- after 1970. A subtraction that saturates is that of the natural numbers.
--
-- Fuel. `drain` of Subagent/Drain runs on one round more than the queue is long, since each round takes a
-- task out. `rounds` of Plan runs on one round more than there are tasks, since each round sorts one at
-- least. `mark` of Cron/Field runs on 257 turns: a u8 counts up by a step of 1 or more; a step of 0 never
-- ends, which is the result `hang`. The search for the next run is the source's own loop of 527,040
-- minutes.
-- The loop over attempts of Provider/Reliable runs on one turn more than the budget has attempts left,
-- since each turn but the last counts one. `show` of Scan writes a number on one turn more than the number.
--
-- The tasks, plans and approvals are taken to publish on a bus that has room: what they send is kept in an
-- outbox, and the wait for a full queue, under the lock of the tasks, is left out.
--
-- What is outside is a parameter: the table of alphanumeric characters (Routing), the calendar of chrono
-- (Cron), the order in which a hash map is iterated (Plan, Todo), lower case (Provider, Todo), regular
-- expressions, the parser of JSON and the providers that are called (Provider), the hash of a text,
-- upper case and the summary of a model (History), the channels of crossbeam (Bus, Events), the parser
-- of addresses and the resolver of names (NetGuard). What an agent or a command answers is an argument
-- of the operation that receives it. What happens while a plan
-- sleeps is a row of pauses, each with events and the clock (Plan/Execute).
--
-- Not modelled: the clients of language models, the channels, the tools, memory in databases, the
-- terminal dialogs and the wiring of the daemon, which are input and output or texts; of the parts above,
-- the texts of messages (a report is kept by its parts), the prompts of a task, the table of plans, the
-- instructions around the turns in the request for a summary, and the older summaries by the model.
pub mod Prelude
pub mod Dict
pub mod Scan
pub mod Breaker
pub mod Limiter
pub mod Approval
pub mod Mailbox
pub mod Routing
pub mod Subagent
pub mod Plan
pub mod Cron
pub mod Lru
pub mod Provider
pub mod History
pub mod NetGuard
pub mod Session
pub mod Events
pub mod Bus
pub mod Todo
pub mod PathGuard
