-- ===== src/Lib.antt =====
-- The backend of qisma: an API on which groups of people share expenses. The parts that are modelled:
--
-- * Splits (src/modules/splits): `Splits/Rounding` is the part of rounding.engine.ts that distributes
--   an amount in minor units by weights, `Splits/Money` its functions on texts of amounts;
--   `Splits/Shares` with `Splits/Shares/Ways` is expense-split.service.ts, the six ways to split an
--   expense; `Splits/Balance` is balance.engine.ts, from the expenses of a group to the net of each
--   user, and `Splits/Debt` debt-simplification.service.ts, which turns the nets into transfers. The
--   numbers of the package decimal.js are the parameter `DecimalLib`, with what the code relies on in
--   `IsExact`; `Splits/Decimal/Fixed` is a model of it. `localeCompare` of user ids is a parameter.
-- * Groups (src/modules/groups): `Groups/Store` has the tables (prisma/schema.prisma) and the queries
--   of the repositories, `Groups/Rules` permissions/group-membership-rules.service.ts, and
--   `Groups/Service`, `Groups/Invites` and `Groups/Reads` the handlers of groups.service.ts. A
--   handler maps the tables to a result or an exception and to the tables as it leaves them.
-- * Redis (src/infrastructure/redis/redis.service.ts): the commands of the server are the parameter
--   `RedisLib`, with what is relied on in `IsRedis`; `Redis/Scripts` has the Lua scripts, each a step
--   of the server at a time; `Redis/Model` is a model of the commands.
-- * Otp (src/modules/otp): otp.service.ts and services/rate-limit.service.ts, over the scripts. The
--   verification ends in a login, which is an argument: the user, the invites that are claimed
--   (`Groups.Invites.claim_pending`), and the tokens.
-- * Auth (src/modules/auth): services/token.service.ts and repositories/refresh-token.repository.ts.
--   `Auth.rotate_refresh_token` is a rotation that no other request interrupts; `Auth/Stages` takes
--   rotations one awaited statement at a time, with other requests in any order between them.
-- * Expenses (src/modules/expenses): `Expenses/Store` has the tables and exceptions,
--   `Expenses/Paging` what its two lists share, `Expenses/Cursor` the cursors of utils/, over the
--   parameter `CursorLib` for dates, JSON and base64 (`Expenses/Cursor/Sample` is a model of it),
--   `Expenses/Feed` the feed of a group in expenses.service.ts, `Expenses/Comments`
--   expense-comments.service.ts, `Expenses/Payload` utils/map-split-payload.ts, `Expenses/Snapshot`
--   the balances of a group and group-balance-cache.service.ts, and `Expenses/Ledger` the handlers
--   that create, patch and delete an expense or react to it: what one reads and checks is its plan
--   (`Expenses/Ledger/Plan`), and then it writes, in one step.
--
-- Choices. Ids, names and hashes are natural numbers, since they are only compared; phones and
-- other texts that the code takes apart are lists of character codes. A table is the list of its
-- rows in the order of insertion. The clock, drawn ids and drawn codes are arguments, and one
-- request sees one time, but for a rotation that is taken by statements, which sees one at each;
-- the server of Redis and the application have the same clock. Weights are natural numbers, as the
-- callers throw at negative ones. What the database warrants (a new id is not in use, an invite
-- refers to a group) is a hypothesis. The loop of `simplify` runs on fuel, the number of the
-- debtors and creditors together: each round uses up one of them at least, so it ends before the
-- fuel does. All other recursion is structural.
--
-- Numbers of decimal.js are exact as long as they fit its 20 significant digits (a column of money has
-- 19); every result on amounts that goes through `IsExact` holds within that limit, and says nothing
-- of longer ones.
--
-- Not modelled: the classification of expenses, their receipts, tags and statistics, contacts, users,
-- uploads and analytics, idempotency keys, controllers, validation of requests, logging and
-- configuration.
pub mod Prelude
pub mod Splits
pub mod Groups
pub mod Redis
pub mod Otp
pub mod Auth
pub mod Expenses
