-- ===== src/Lib.antt =====
-- mono-finance: the Worker of a personal finance application. It imports transactions from
-- Monobank's Personal API into a D1 database, and lets the owner link the incoming transactions that
-- reimburse an expense. This library models that part of worker/.
--
-- Parts and files.
--
-- RateLimit: the gate before every call of the API. `reserve` and `defer_until` are
-- `D1MonobankRateLimitStore.reserve` and `.defer` (worker/repositories/monobank-rate-limit-repository.ts);
-- `acquire` and `defer` are the methods of `PersistentMonobankRequestGate`
-- (worker/monobank/rate-limit.ts). The state is the table, a function from scopes to times; a call of
-- `perform_all` is a history of calls, whose clocks never go back where a theorem says so.
--
-- Monobank: `requestJson` and `retryAfterSeconds` of worker/monobank/client.ts, behind the gate's
-- `acquire` and with its `defer`, as far as the undecoded JSON. The platform's `fetch`, the reading of the body
-- and of the `Retry-After` header enter as their outcomes.
--
-- Sync: the transaction synchronization. Sync.Window is worker/services/transaction-sync-window.ts
-- and the check of a request in worker/monobank/client.ts. Sync.Tables, Sync.Claim and Sync.Import
-- are the statements of worker/repositories/transaction-sync-repository.ts, over a record of tables.
-- Sync.Service is worker/services/transaction-sync-service.ts: `synchronize_next` claims an account,
-- asks for a window, calls the client, stores what it got and completes or fails the window. Monobank's
-- client is a parameter; so is what other workers do between two statements.
--
-- Compensation: Compensation.Tables has the statements of
-- worker/repositories/compensation-repository.ts with the constraints and the trigger of
-- `compensation_links` (migrations/0001_initial_schema.sql). Compensation.ExactSum, .Score and .Service are
-- worker/services/compensation-service.ts: `hasExactSum`, `score` and `suggest`, and the use cases
-- `getDetails`, `link` and `unlink`.
--
-- Categories: Categories.Tables and Categories.Statements are the tables and the statements of
-- worker/repositories/categories-repository.ts with their UNIQUE and FOREIGN KEY constraints, and Categories.Service
-- the calls of worker/services/category-service.ts that change them, and `resolveEffectiveCategory`.
-- Categories.Lists has the lists of categories and of source categories.
--
-- Corrections: an adjusted amount or an exclusion of an imported transaction. Corrections.Tables is
-- worker/repositories/transaction-corrections-repository.ts, and Corrections.Service the four calls of
-- worker/services/transaction-correction-service.ts.
--
-- Currency: worker/analytics/currency-conversion.ts. Currency.Rates is the choice of a rate
-- (`rateFor`, `latestRate`), Currency.Rounding `multiplyAndRound`, and Currency.Conversion the loop of
-- `convertTransactionsToBaseCurrency`.
--
-- Analytics: worker/services/analytics-service.ts. Analytics.Transactions has its records and its
-- rounding, Analytics.Calendar the days, weekdays and months of UTC, Analytics.Totals the sums by currency
-- and by period, Analytics.Breakdowns those by account, category, merchant and weekday, Analytics.Recurring
-- the repeated purchases, Analytics.Periods the averages over days, and Analytics.Service the three calls
-- `overview`, `breakdowns` and `trends`, which convert the transactions by Currency.Conversion first.
-- Analytics.Views compares the breakdowns. Its repository is the record of its two queries, which
-- Analytics.Repository fills (worker/repositories/analytics-repository.ts); Analytics.Route is worker/routes/analytics.ts.
--
-- Listing: the list of transactions. Listing.Rows is the row and the item of
-- worker/repositories/transactions-repository.ts (`mapTransactionRow`), Listing.Search its `escapeLike` with
-- LIKE as SQLite has it, Listing.Query its `list` with the conditions, the order, the cursor and the limit, and
-- Listing.Parse and Listing.Filters the parameters, `parseFilters` and the handler of worker/routes/transaction-list.ts. The codes of the
-- platform (`btoa` and `JSON.stringify` of a cursor and their inverses, `toLowerCase`, `trim`) are parameters,
-- as is the number that stands for a text; that parsing undoes the encoding of a cursor is the hypothesis
-- `RoundTrips`.
--
-- Auth: `AuthService` of worker/auth/auth-service.ts over the tables of
-- worker/repositories/auth-repository.ts: the owner, the failed logins with their lock, and the sessions.
-- What the platform computes (hashes, the pattern of an address, the collation) is the parameter `AuthOps`.
--
-- Common has what these share: Boolean tests, lists, integers over the native numbers, a stable sort, sums by key,
-- and `Action`, which passes the tables and returns or throws.
--
-- Choices. Amounts are exact integers and times natural numbers of seconds; a JavaScript number that
-- arrives from outside is `Number`, an integer or something else, and `Number.isSafeInteger` is a
-- test on it. Texts are lists of code units, and identifiers and currency codes are natural numbers.
-- A table is a function from its primary key, or a list where the code reads it in an order; one
-- statement of D1 is one step. `claimNext` tries three times, as written in the source. The month of a day is
-- found by walking from January 1970 on the fuel `day + 1`: each step passes 28 days or more, and
-- `month_start-partition` rests on that being enough. Every other loop runs over a list. `follow`, which asks
-- for page after page, is no code of the repository and stands in a theorem only. Random identifiers and
-- clocks are arguments. A key that the source joins by a NUL is a tuple of its parts, and `localeCompare` of
-- two texts is the order of the numbers that stand for them, but of two category keys a parameter. A
-- quotient that `Math.round` takes is the exact one, which its floating-point value rounds like as long as the
-- amounts are below 2^52.
--
-- Not modelled: the other routes, the decoding of Monobank's JSON, accounts, the fetch of exchange
-- rates, and the browser's side.
pub mod Analytics
pub mod Auth
pub mod Categories
pub mod Common
pub mod Compensation
pub mod Corrections
pub mod Currency
pub mod Listing
pub mod Monobank
pub mod RateLimit
pub mod Sync
