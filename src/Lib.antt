-- ===== src/Lib.antt =====
-- The execution simulation of the repository, src/std0_quant/execution, and the episodes of
-- src/std0_quant/events.
--
-- The package simulates orders on a prediction market from recorded trades and books. An order is a
-- state machine (Order); a resting order waits in a first-in, first-out queue (Queue); a trade at its
-- price, or a sweep of the visible book, gives fills (Fill); times come from records with checks
-- (Timestamps) or from a fixed latency profile (Latency). A cancellation may meet a fill on its way
-- (Race), and a cancelled order may be replaced (Replace). Three simulators run these parts: a passive
-- order against later trades (Simulator), a cancellation followed by a replacement (ReplaceSimulator),
-- and an IOC or FOK order against the visible book (Taker). A portfolio keeps the cash and the positions
-- that fills change, and what is reserved of both for outstanding orders (Portfolio). A gate reads the
-- portfolio and allows an order or gives the reasons against it (Risk). The costs of fills and their
-- profit at a mark are summed up (Cost), also for what a simulator returns (Costed). Two pipelines join
-- it all: the gate, a reservation, a simulation, its fills on the portfolio, and the release of what is
-- left of the reservation, also after an exception (Pipeline). Apart from these, recorded BUY fills of one
-- market and direction are merged into parent episodes (Episodes), and the first episode against a market's
-- initial direction is found (Opposite). On the way to a venue, an intent of an
-- order (Contracts) is written to an append-only, hash-chained ledger before it is sent (Ledger), and one
-- coordinator owns the ledger, the portfolio and the adapter, which is a stub without a network (Submit): a
-- call checks the evidence, the times and the risk, reserves, writes, reads back, checks again, and sends
-- once; what goes wrong on the way halts it until the ledger is reconciled.
--
-- Which file models which part (paths under src/std0_quant/execution, or in full):
--   Order, Order/*           order_state.py: `OrderStateMachine`, its constructor in Order/Create
--   Queue, Queue/*           queue_model.py: `FIFOQueueModel`, its constructor in Queue/Create
--   Timestamps, Timestamps/* execution_timestamps.py
--   Latency, Latency/*       latency_model.py
--   Fill, Fill/*             fill_model.py
--   Race, Race/*             cancel_fill_race.py
--   Replace, Replace/*       cancel_replace.py
--   Simulator, Simulator/*   simulator.py: the loop in Simulator, the function in Simulator/Run and
--                            Simulator/Passive, the timestamps from a latency profile in Simulator/Inputs
--   ReplaceSimulator/*       replacement_simulator.py
--   Taker, Taker/*           taker_simulator.py: the function in Taker and Taker/Simulate
--   Portfolio, Portfolio/*   portfolio.py: the reservations in Portfolio, both fills in Portfolio/Fills
--   Risk, Risk/*             risk.py
--   Cost, Cost/*             cost_pnl.py
--   Costed                   costed_simulator.py
--   Pipeline/Aggressive      risk_execution_pipeline.py, with the parts shared with
--   Pipeline/Passive         passive_risk_pipeline.py in Pipeline; the other files of Pipeline are
--                            about what a call leaves behind
--   Episodes, Episodes/*     src/std0_quant/events/episode_builder.py, for the fills of events/fills.py
--   Opposite, Opposite/*     src/std0_quant/events/first_opposite.py
--   Contracts, Contracts/*   contracts.py: `OrderIntent`; `OrderEvent` in Contracts/Events, on the texts of
--                            Contracts/Text
--   Ledger, Ledger/*         durable_intent_ledger_v1.py: `append` and the reads in Ledger, what opens a file
--                            in Ledger/Recover
--   Submit, Submit/*         exclusive_submit_path_v1.py: the reservations in Submit/Hold, the reasons
--                            against a call in Submit/Stages, the dispatch in Submit/Path, `submit` in
--                            Submit/Call; Submit/Rules, Submit/Commits and Submit/Keeps carry a statement
--                            through a call
--   Common, Numeric, Action  shared: library names, lists, the stable sort, floats, results, methods
--
-- Definitions keep the names of the source, in the spelling of this language: `_transition` is
-- `transition`, `AggressiveTIF` is `AggressiveTif`, a constructor `__post_init__` is a function `create`
-- or `create_...`. A method of a mutable object is an `Action` (Action.antt): it takes the object
-- and gives a result or an error, and the object as it is afterwards, also after an error, since Python
-- keeps what was written before a raise. Errors are the constructors of `Numeric.Error`, one for each
-- raise. The local objects of a simulator are one record (`Simulation`, `Taking`), and a method call on
-- one of them changes that field. The pipelines change the caller's portfolio, so their actions are on
-- it, and their `try` block runs on the portfolio with the local counts of what is left reserved.
--
-- Numbers. A Python float is `nan`, an infinity, or a whole number of grains of 1e-12
-- (Numeric.antt). 1e-12 is the `_EPS` that the package compares with everywhere, so `_EPS` is one
-- grain, and all tolerances of the source are kept as they are written. The arithmetic of the
-- modelled code (sums, differences, minima, comparisons) is exact on grains; the rounding of IEEE
-- doubles and their largest value are not modelled. What has passed a check for a nonnegative finite
-- number is a natural number. An amount of cash is a product of a quantity and a price, in squares
-- of a grain, and `_EPS` is 1e12 of these (`Portfolio.eps_cash`); cash, profits and costs that may
-- be negative are integers. A quotient (a fee by basis points, an average cost or price, a ratio) is
-- rounded down to its unit. Where the source subtracts, it has compared before or takes a maximum
-- with 0, and the subtraction of natural numbers, which stops at 0, gives the same. Loops run over
-- lists, by structural recursion, so no fuel is needed and every function returns or raises.
-- `sorted` and `list.sort` are the stable insertion sort of Common/Sort.antt.
--
-- The world. SHA-256 over canonical JSON is third-party code: the digests of the ledger are a parameter
-- with any type of values whose equality is decided, and only where a theorem says so they do not collide.
-- The file of a ledger is the list of its lines, and a line is what its decoding gives, or none where that
-- fails. What the operating system does is an input of each call: whether the file is found as it was
-- left, and how far a write comes (not at all, an incomplete line, a whole line without its
-- acknowledgement, or all of it). So are the readings of the clock, each look at the kill switch, which
-- another thread may set, and the verdict of the eligibility gate. Calls of one object are serialized by
-- its lock, so a sequence of calls is a list.
--
-- Not modelled: the checks of the spelling of a side and of a time in force, and of the length of a
-- level, which the types make; the version that an intent carries, which must be the supported one; the averages of prices, which divide floats and which no other code
-- of these modules reads; the texts of the messages; the strings of a position's key, which is a
-- pair of numbers here, as are the strings of a fill of the events package and of an intent (those of
-- an order event are lists of code points). Of the rest of the
-- repository, the journal of events, the reconciliation and the eligibility gates of the execution
-- package, and the collectors, audits, features and research modules, which are about files, networks,
-- data frames and statistics.
pub mod Common
pub mod Numeric
pub mod Action
pub mod Order
pub mod Queue
pub mod Timestamps
pub mod Latency
pub mod Fill
pub mod Race
pub mod Replace
pub mod Simulator
pub mod ReplaceSimulator
pub mod Taker
pub mod Portfolio
pub mod Risk
pub mod Cost
pub mod Costed
pub mod Pipeline
pub mod Episodes
pub mod Opposite
pub mod Contracts
pub mod Ledger
pub mod Submit
