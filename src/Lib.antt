-- ===== src/Lib.antt =====
-- ForensicChain: a system that keeps digital evidence. Investigators and analysts upload artifacts
-- to cases and verify them, legal reviewers read the ledger and generate reports, and admins manage
-- users and cases. It is a web client in forensic-ui and services in Python in services.
--
-- The client is a React program in forensic-ui/src. Each page keeps its state in hooks, asks the
-- gateway through the calls of forensic-ui/src/api, and renders its state. Here a page is a record of
-- its state; each handler and effect is a function on it, split where the source waits for a reply;
-- and what the page renders is a function `view` of the state into a record of what the user sees.
-- Markup and styling are left out; what a class or an attribute depends on is kept. The order in
-- which replies come is free: it is a list of events or a path of a step relation.
--
-- The gateway asks the authentication service about each request. The evidence collector takes
-- uploads, has them signed, appends their proof to the immutable ledger, and tells of them through
-- an outbox, whose worker publishes to a queue; the chain of custody stores what it takes from the
-- queue. A verification reads the proof back and compares. Here the database of a service is a record
-- of its tables, and a handler is a function on it, one helper for each step after which the source
-- returns or raises. What it answers is `answered` or `http_error`; what a call gives is `returned`
-- or `raised`.
--
--   Common        shared names, Boolean tests, arrays as lists, dictionaries, texts, stable sorting
--   Python        answers, exceptions, str.strip, and services/*/auth_client.py
--   Http          forensic-ui/src/api/client.ts: requests, replies, the interceptors
--   Auth          forensic-ui/src/hooks/useAuth.ts and api/auth.ts: the stored token
--   Api           the interfaces and the requests of forensic-ui/src/api
--   Routes        forensic-ui/src/App.tsx, components/ProtectedRoute.tsx, the guard of the login page
--   Layout        forensic-ui/src/components/Layout.tsx: the navigation
--   Format        sizes, dates, hashes, and components/StatusBadge.tsx
--   Search        the text filter of pages/ArtifactListPage.tsx and pages/CasesPage.tsx
--   ArtifactList  pages/ArtifactListPage.tsx
--   CasesPage     pages/CasesPage.tsx
--   LedgerPage    pages/LedgerPage.tsx
--   ReportPage    pages/ReportPage.tsx
--   UploadPage    pages/ArtifactUploadPage.tsx
--   DetailPage    pages/ArtifactDetailPage.tsx
--   LoginPage     the form of pages/LoginPage.tsx
--   SmallViews    components/FilePickerInput.tsx and pages/UnauthorizedPage.tsx
--   Admin         pages/AdminPage.tsx: its tabs (Users, Cases) and modals (Assignments, NewCase)
--   Dashboard     pages/DashboardPage.tsx
--   Rbac          services/auth-service/rbac.py: the role rules that the gateway asks
--   AuthService   services/auth-service: its tables (Store, models.py), Admin (routers/admin.py) and
--                 Login (routers/auth.py, jwt.py, `validate` of routers/internal.py)
--   ImmutableLedger
--                 services/immutable-ledger: Hashing (chain/hash_chain.py), Records (db/models.py,
--                 proto/ledger.proto), Appending and Validation (servicer.py), Access (main.py)
--   EvidenceCollector
--                 services/evidence-collector: Records (db/models.py), Access, Upload and Verify
--                 (routers/evidence.py, grpc_clients/ledger_client.py), Outbox (worker.py too)
--   ChainOfCustody
--                 services/chain-of-custody: Events (chain/custody_chain.py, db), Consumer and
--                 Retries (consumer.py), Timeline (routers/custody.py)
--
-- Names are those of the source in snake case: `submit_started` is a handler up to its `await`, and
-- `submit_settled` what it does with the reply. A reply is `resolved` with data or `rejected` with
-- what the call throws. `if (x)` at a string is `is_truthy`; `null`, `undefined` and `None` are
-- `none`. Numbers of the client are natural: sizes, counts and times. They stay below 2 ^ 53, where
-- the numbers of the source are exact, so no wrap-around is modelled; a rounded quotient is by a power
-- of two. The number of records that the ledger checks is an int32 of the response; it is modelled
-- for chains of fewer than 2 ^ 31 records. Loops are structural, but for the printing of a number,
-- whose fuel is the number itself plus one, more than it has digits.
--
-- A transaction of a service is one step: it is committed as a whole or, when an argument for a fault
-- says so, not at all; the uploads tell a commit that raises from a refresh that raises after it.
-- An upload's removing of a directory is taken not to fail. The queue of the chain of custody is the
-- list of the copies of a message, and a copy that is neither acknowledged nor rejected is delivered
-- anew. A query with ORDER BY is a stable sort of the rows as they were stored. Times
-- of the services are numbers.
--
-- Parameters stand for code that is not in the repository: `jwt_decode` (jwt-decode; `none` where it
-- throws), `match_route` (the matching of react-router, with what the client relies on as the record
-- `Routes.Access.IsRouter`), and of the JavaScript runtime the formatting and the reading of dates,
-- `toLowerCase` and `toUpperCase`. For the services they are SHA-256, json.dumps, the printing and
-- reading of ids and dates, the checks of bcrypt, the encoding and decoding of tokens, the digits that
-- a pattern admits, and what the broker, the file system and other services answer. The modules named
-- Examples hold tests and the instances that the results apply to.
--
-- Not modelled: the animated backdrop of the login page, the start of the services, the handlers that
-- only list rows of the authentication service, the responses that carry a file, the configuration of
-- the gateway, services/hash-sign, which calls a cryptographic library, services/audit-reporter,
-- which lays out reports, and generated code.
pub mod Common
pub mod Python
pub mod Http
pub mod Auth
pub mod Api
pub mod Routes
pub mod Layout
pub mod Format
pub mod Search
pub mod ArtifactList
pub mod CasesPage
pub mod LedgerPage
pub mod ReportPage
pub mod UploadPage
pub mod DetailPage
pub mod LoginPage
pub mod SmallViews
pub mod Admin
pub mod Dashboard
pub mod Rbac
pub mod AuthService
pub mod ImmutableLedger
pub mod EvidenceCollector
pub mod ChainOfCustody
