-- ===== src/Lib.antt =====
-- Arena 402 is a turn-based market for agents with payments. This library models its core.
--
-- Base holds what the modules share: tests, lists, Python's dict, stable sorting, signed integers,
-- texts, and exceptions as results: an Action is a method that returns its outcome together with the
-- object, so that what was written before a raise stays written. Every method is one action, as the
-- locks of the code make it.
--
-- Payments models arena_payments. Payments/Models.antt is models.py: mandates, settlement terms and
-- reservations, whose constructors run their guards in order. Payments/Repository.antt is the class
-- InMemoryPaymentRepository of repository.py, with create_mandate, active_mandate, reserve_mandate,
-- consume_reservation, submit_reservation, release_reservation and revoke_mandate. Its state is the
-- three dicts of the class. Steps are the writes of the methods as a relation, Accounts and Ledger the
-- invariant, History, Finality and Exclusive the theorems. The clock and the SHA-256 identifier of a reservation
-- are parameters; that identifiers of different intents differ is a named hypothesis. Wallets.antt
-- has the inventory and the bindings of wallets of both files, a state of its own, since mandates only
-- name wallets; what str.isdigit accepts is a parameter.
--
-- Game models arena_game. Negotiation.antt is negotiation.py, Market.antt is market.py, Goods.antt and
-- Money.antt are goods.py and the adjustment of money.py, Portfolio.antt and Ranking.antt are
-- portfolio.py and ranking.py, Events.antt is events.py, Liquidity.antt is liquidity.py, and
-- Rounds.antt is game.py: a game owns a WorldState of Events and the portfolios, and its methods call
-- reveal, snapshot, the distribution and the rankings. Digests are parameters. AgentMarket.antt is the
-- class AgentDrivenMarket of a2a_market.py: Terms has its records, State the dicts and the claims on
-- results, Publishing and Engaging the methods. Its Steps are the writes of the methods with the guards
-- they have passed, Kept, Stored and Slots what every step keeps, Calls the sequences of calls with
-- what the market promises, and Directory what public_directory lists. Settlement.antt is settlement.py,
-- and Settlement/Evidence what evidence on the chain proves. Rules.antt is rule_runtime.py with the
-- loop of postgres.py in which two runtimes negotiate through Negotiation; its fuel is the number of
-- turns, and Rules/Deals shows that this is enough.
--
-- Core models arena_core; its datetimes are those of Payments. Results.antt is submit_result and
-- finalize_expired of the class MemoryArenaCoreRepository of repository.py, with the records of
-- models.py; creating tasks and applying results are left out. Hashes and the screening of
-- identifiers are parameters; that digests of different texts differ is a named hypothesis.
--
-- Gateway/RateLimit.antt is rate_limit.py of connector_gateway, with the clock as a number of ticks that
-- each check is given.
--
-- A datetime is an instant and whether it has a time zone. Loops are structural recursion on the lists
-- they read; besides the negotiation of two runtimes, only the decimal digits of a number are read with
-- fuel, one more than the number, which has fewer digits than that. Numbers that a constructor requires not to be negative are natural.
--
-- Not modelled: the PostgreSQL adapters but for that loop, the HTTP services and workers, cryptography, the hosted agents
-- and their language models, the connector in other languages, and the deployment, since they are
-- input and output, SQL or glue. The event deck and the price catalogue are left out as well.
pub mod Base
pub mod Core
pub mod Game
pub mod Gateway
pub mod Payments
