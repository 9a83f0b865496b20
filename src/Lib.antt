-- ===== src/Lib.antt =====
-- A verification library of portfolio-copilot, a trading copilot that mirrors brokerage accounts,
-- records what happens in an event log and places orders after a preview.
--
-- The program's parts and the modules that model them:
--   Domain     src/trading/domain: money, symbols, entities, and the event catalog. The constructors'
--              checks (`__post_init__`) are functions `make_money` and `make_symbol` into a result.
--   Outbox     src/trading/application/common: `EventEnvelope` (Envelope), `EventBus` (Bus),
--              `UnitOfWork` (UnitOfWork) and `OutboxRelay` (Relay) over the tables `outbox` and
--              `event_log` (Store). A use case collects events in its unit of work, whose commit
--              writes outbox rows; the relay claims rows, logs their envelopes, delivers them on the
--              bus and marks them published, each row in a transaction of its own.
--   Broker     src/trading/adapters/fake/broker.py: the in-memory broker and its paper orders.
--   Trading    src/trading/adapters/schwab/orders.py (EquitySpec) and
--              src/trading/application/execution/place_order.py (Command, PlaceOrder). The use case
--              takes any broker of the protocol `_BrokerLike`, which is the record `BrokerLike`.
--   Positions  src/trading/application/portfolio/refresh_positions.py: the tables and statements
--              (Tables), the drift rules and `execute` (Refresh).
--   Ledger     src/trading/application/signals/generate_digest.py: the recommendation ledger. The rows
--              (Row), detection of what was acted on and the steps before a digest (Detect), and the
--              new recommendation with what it supersedes (Record). The relation `Step` of Lifecycle
--              is the life of a row: active, then expired, acted on or superseded. Final is about
--              further runs, and Nan about an amount that is no number. Block reads and
--              removes the block that the model writes, and Digest is the use case around the ledger,
--              with its row and its event.
--   Ingest     src/trading/application/congressional/ingest_disclosures.py: the disclosures of the Quiver
--              feed, stored once each and announced by events; `backfill` in Batches.
--   Quiver     src/trading/adapters/quiver: the fields of a record (Fields, Values), trades and members
--              (Records), and the client with its loops over pages (Client).
--   Schwab     src/trading/adapters/schwab: the parsers (Values, Parsing) and `SchwabBrokerAdapter` over
--              the answers of schwab-py (Responses, Adapter). Mirrored takes the adapter as the broker
--              of Positions.
--   Massive    src/trading/adapters/massive: the parsers of market data (Parsing) and the client with
--              its fallback to previous closes (Client).
--   Briefing   src/trading/application/signals/generate_briefing.py: the week's disclosures, the template
--              (Template), the prompt, the choice of the summary and `execute` (Model).
--   Advisors   src/trading/application/advisors: the reading of a model's answer (Llm) and the view that
--              an advisor forms of it (Agent).
--   Worker     src/trading/application/common/clock.py (Clock) and apps/worker: the alerting jobs and
--              run_job.py (Jobs), and the drift handler on the bus of Outbox (DriftAlert).
--   Json       the values of `response.json()`, shared by Quiver, Schwab and Massive.
--   Quotes     src/trading/application/market_data/refresh_quotes.py: positions enriched by quotes.
--   Decimal    the part of Python's `decimal` that the program uses: exact sums, products and
--              comparisons, `quantize`, `int`, and `/` to 28 digits.
--   Prelude    what the modules share: tests, lists, results, integers, dicts and effects.
--
-- State is explicit: a class is a record of its fields, a method a function on it, an exception a
-- value `err` of `Result` or `raised` of `Outcome`. Python's `dict` is a list of entries in
-- insertion order. Identifiers and times are numbers that the caller gives, since `uuid4` and the
-- clock give them in the program.
--
-- Bounds. The loops run over lists and are structural recursion, but for three. The two loops of the
-- Quiver client over pages run on fuel: one turn more than there are full pages is enough. The walk
-- to the next opening of the market runs on fuel 4, which is enough for every time. Sums and
-- products of `Money` are rounded to 28 digits, and `/` follows Python's algorithm at 28 digits;
-- other sums and products of decimals are exact, which Python's are while a result has at most 28
-- digits. Of the values that are no numbers only the NaN of a recommendation's amount is modelled.
-- Numbers that are stored keep their value, which PostgreSQL's columns do up to eight places for a
-- quantity and four for an amount. Texts whose case or spaces matter are ASCII.
--
-- Outside the repository and so parameters: the builders of schwab-py (`SchwabOrders`, with the laws
-- `ReadsAsDocumented`) and the answers of its client (`SchwabClient`), the answers of `httpx` to the
-- Quiver client (`Answer`) and to the Massive client (`Service`), the date readers and digests that
-- the parsers call (`Libraries`), the broker behind `BrokerLike`, `BrokerPort` and `LiveBroker`, the
-- handlers on the bus, the object store that may replace a payload, and the provider of a language
-- model. The texts that Python prints for dates and numbers are the record `Format`, and the texts
-- of the digest for people and for the model are the record `Texts` of Ledger. The advisors' `Texts`
-- holds `json.loads` and the texts of values.
--
-- Not modelled: the EDGAR adapter, the fundamentals of Massive, the personas and the snapshot of the
-- advisors, the templates and prompts of the digest, the requests to the providers of language models,
-- the token files of Schwab, the web and tool entry points, the scheduler, migrations, and logging.
-- They are input and output, texts for people, or glue; EDGAR and the snapshot are left to further
-- modules.
pub mod Prelude
pub mod Decimal
pub mod Domain
pub mod Outbox
pub mod Broker
pub mod Trading
pub mod Positions
pub mod Ledger
pub mod Ingest
pub mod Advisors
pub mod Briefing
pub mod Json
pub mod Massive
pub mod Quiver
pub mod Quotes
pub mod Schwab
pub mod Worker
