-- ===== src/Lib.antt =====
-- A model of the server of the platform's web application (apps/web/src/server) and of the policy
-- that it shares with the database package (packages/database/src).
--
-- The parts. Administrators edit the documents of the site: `Documents` is
-- apps/web/src/server/documents. A service call (service.ts, `Documents.Service`) parses its
-- input, opens a transaction, checks the actor's permission, locks the row, compares the expected
-- versions, and then runs the statements of the repository (repository.ts,
-- `Documents.Repository`) on the tables of packages/database/src/schema/content.ts
-- (`Documents.Model`). Requests reach the service through the access service (auth/access.ts),
-- which is `Access`: the session (`Access.Session`), the queries (`Access.Repository`), the
-- actors and guards (`Access.Service`), the guards of pages (auth/workspace-route-guards.ts,
-- `Access.Guards`) and what is told of an actor (`Access.Dto`). The assistant calls an agent
-- service through a circuit breaker (assistant/agentos-execution-circuit.ts), which is `Circuit`;
-- whether that service is ready, and who answers, is `Readiness` (assistant/agentos-readiness.ts)
-- and `Readiness.Runtime` (assistant/assistant-runtime.ts, assistant-provider-selector.ts). The
-- limits on requests (assistant/assistant-rate-limit.ts and auth/rate-limit.ts) are `RateLimit`.
-- Accounts are managed by four services over the same tables, `Directory`
-- (packages/database/src/schema): `Workforce` is admin/users.ts, which creates the staff's
-- accounts and changes their roles and status, and `Registration` is registration/service.ts and
-- repository.ts, by which customers register and staff approve or reject them; their events pass the
-- checks of auth/audit.ts (`Registration.Audit`). `Sessions` is
-- admin/sessions.ts, which revokes sessions, and `Roles` admin/roles.ts, which replaces the
-- permissions of roles. Those of admin/ ask the access service who acts (`Directory.Acting`), and
-- `Directory.access_view` is what it sees of the tables; a review of a registration is given its
-- actor and asks the tables again. `Http` is http/read-bounded-json.ts, by which bodies of
-- requests are read. `Identity` is packages/database/src/identity-policy.ts. `Base` has what the
-- parts share.
--
-- State and errors. A transaction is a function from the tables to a result with new tables, or
-- to the error that is thrown; an error rolls back (`Base.Results`). The tables are lists of
-- rows, and a statement is an update, a count or a search over them. A unique index or foreign
-- key is modelled where a statement relies on it: it refuses the write. Transactions run one
-- after another, as the row locks of the source make them for a document and the advisory lock of
-- admin/users.ts makes them for workforce users. The circuit has its tickets, the operations that
-- it has admitted and that have not settled, so its steps are a relation (`Circuit.Steps`): they
-- settle in any order.
--
-- Numbers. Instants are natural numbers of milliseconds. Where the source subtracts from an
-- instant, the model adds to the other side, so that no difference is cut off. Counters are
-- unbounded; the assistant's limiter tests that what it reads is a safe integer. The loop over
-- the reads of a body runs on fuel, which is enough where no read is empty; every other recursion
-- is on a list or a text.
--
-- Parameters. The compiler of documents, the schemas of zod and the audit writer's validation of
-- the documents' events are the fields of `Documents.Service.Environment`. The HMAC digest and the normalization of
-- identifiers are fields of the limiters. The session that the authentication library returns is
-- an argument of the access service. Unicode normalization, lower case, the password hash and the
-- database's `lower` are arguments of the services of accounts, and so is the limiter of a
-- submission, for which `Registration.Limiter` is the one of the source. New ids, the readings of
-- clocks and the rows that other transactions hold locked are arguments of the operations.
--
-- Not modelled. The read-only queries of the documents (list, getById) and the server actions;
-- the settings and the composition of the assistant's runtime; the lists of users and roles;
-- downloads; the pages; the Python services, which the web application calls over HTTP. Texts are
-- ordered by their characters' numbers, where the source orders UTF-16 units or asks the
-- database.
pub mod Base
pub mod Identity
pub mod Documents
pub mod Circuit
pub mod Access
pub mod RateLimit
pub mod Readiness
pub mod Directory
pub mod Workforce
pub mod Registration
pub mod Sessions
pub mod Roles
pub mod Http
