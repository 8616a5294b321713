-- ===== src/Lib.antt =====
-- The frontend of NEXUS, a single-page application for identity and access governance, with the parts
-- of the Go backend that decide what it may show.
--
-- The parts. `ApiClient` (frontend/src/services/api.ts) sends requests with a bearer token that it
-- keeps in a field and in `sessionStorage`. `AuthProvider` (frontend/src/hooks/useAuth.tsx) holds the
-- signed-in user and a copy of the token, and calls the client. `App` and `ProtectedRoute` choose the
-- page for a path by the provider's state; the sidebar offers the pages. Each page keeps its own state,
-- calls the client, and shows what came back. The backend keeps accounts, signs and checks tokens,
-- gates its routes by role, answers access requests with its policy engine, and logs what it did.
--
-- The files.
--   Common: shared names, Boolean tests, lists, texts, maps, signed integers
--   Types: frontend/src/types/index.ts; Types/Roles: the strings of the roles
--   Browser: `fetch`, `sessionStorage` and exceptions, as the code uses them
--   Api: frontend/src/services/api.ts; Api/Token and Api/Requests: its theorems
--   Auth: frontend/src/hooks/useAuth.tsx; Auth/Context: what the provider passes on;
--     Auth/Invariant, Auth/Login and Auth/Races: its theorems
--   Shell/Guard: frontend/src/App.tsx and components/ProtectedRoute.tsx, `protected_route`, `render`
--   Shell/Sidebar, Shell/Navbar: frontend/src/components/Sidebar.tsx and Navbar.tsx
--   Pages/SignIn: frontend/src/pages/LoginPage.tsx and RegisterPage.tsx
--   Pages/Users, Roles, Audit, Policies, Applications, Dashboard, Security, Settings: the page of that
--     name in frontend/src/pages, with its theorems below it; `Screen` is the whole page as a record of its
--     texts, controls and tables, and Pages/View what the pages have in common
--   Backend/Rbac: backend/internal/rbac/permissions.go
--   Backend/Gates: backend/internal/auth/middleware.go and the routes of backend/cmd/server/main.go
--   Backend/Routes: `registerRoutes` of backend/cmd/server/main.go; below it, the requests of the pages and of
--     the client's methods at those routes
--   Backend/Bearer: `RequireAuth` of backend/internal/auth/middleware.go; Backend/Bearer/Sent: the headers of
--     the client as `fetch` sends them
--   Backend/Http, Backend/Integers: `writeJSON`, Go's `int` and `strconv.Atoi`
--   Backend/Policy: backend/internal/policy/engine.go; Backend/Policy/Defaults: `NewEngine`; Matching,
--     Verdict and Store: what it matches, decides and keeps
--   Backend/Handler: backend/internal/policy/handler.go; below it, the frontend before a server that runs
--     the handler (`ServesAccess` and `ServesPolicies` say what such a network answers), and before one
--     that has just started (Fresh)
--   Backend/AuditLog: backend/internal/audit (types.go, logger.go, handler.go); below it, which events the
--     pages hold, overflow, and the audit page before a server that runs the handler (`ServesAudit`)
--   Backend/Accounts: backend/internal/users/model.go and backend/internal/auth/store.go; below it, Service,
--     Handlers and Mfa for service.go, handler.go and mfa_handler.go, Seed for `seedDevUsers`, Key for
--     `LoadSigningKey`; and, for proofs, SignIn, NewAccount, Registration, Passwords, Demo, Consistent,
--     Updated, Kept, Reached, and the registration of the frontend before a server that runs the handlers
--     (`ServesAccounts`)
--   Backend/Postgres: backend/internal/auth/store_postgres.go and the table `users` of
--     backend/internal/database/migrations; Backend/Postgres/Creation (and Fitting) compares it with the in-memory store, and
--     Backend/Postgres/Service the service over the two
--   Backend/Postgres/Audit: backend/internal/audit/logger_postgres.go and the table `audit_logs`; the rows
--     that its goroutines still have to write are part of the state, and Backend/Postgres/Settled takes
--     them in any order (Order: what an order by time leaves open; Unlogged: the handler's entries)
--   Backend/Middleware: backend/internal/middleware/http.go
--   Backend/Totp: backend/internal/auth/totp.go; Backend/Base32: Go's base32, as its `base32Decode` uses it
--   TotpScript: security/totp_verify.py, the same algorithm in Python; TotpScript/Agreement compares the two
--   Backend/RateLimit: backend/internal/security, and `withRateLimit` of backend/cmd/server/main.go
--   Examples: a server and a user, and the theorems at them
--
-- How state and operations correspond. A component's `useState` variables are a record (`Session`,
-- `AuditPage`, `PoliciesPage`), and a handler is a function on it, with the source's name in snake case
-- (`handleRunEvaluation` is `run_evaluation`). The client's state is `Env`: the world behind the
-- network, the storage item and the token. An async method is an `Action`, which returns or throws and
-- keeps what it wrote. A handler is cut at its `await`: what runs before the request, and what runs with
-- the answer, are functions of the state then current (`logs_started`, `logs_ended`), and the handler is
-- their composition around the client's method. Auth/Races and Pages/Audit/Races put those pieces in any
-- order, as step relations.
--
-- Parameters. The server is `Network`, an arbitrary function of a request and a state that it may
-- change. Upper and lower case, local times, `JSON.stringify`, `atob` with `JSON.parse`, and new ids
-- are arguments of the definitions that use them.
-- PostgreSQL is the list of the rows of a table, with the constraints that the migration declares, the cut
-- of a text that is too long by spaces alone (Backend/Postgres/Columns) and, as an argument, the rounding of
-- an instant to a column; a select in an order is any list in that order.
-- bcrypt, the JWT library, Redis and HMAC-SHA1 are records of operations, with what is documented of them
-- as records of laws (`BcryptLaws`, `JwtLaws`, `RedisLaws`). What a request takes from the clock and from
-- random numbers is its `Moment`. `confirm` is a Boolean argument, `alert` appends to
-- a list, `navigate` is the path gone to. `data as T` is unchecked in the source, which passes on a
-- body of another type as it is; here the body of an answer with a status from 200 to 299 is taken to be null,
-- which is none, or a value of the type that the call expects.
--
-- Bounds. `settle` follows redirects up to a given number, and two are enough, which is proved. The
-- other functions are structural. Numbers that count are unbounded; a number field of a policy is a
-- signed integer, and a risk score has no fraction. The offsets of the audit log and the counters of
-- one-time codes are computed modulo 2 ^ 64, as the source does.
--
-- Not modelled: the nesting of the markup, its styles and icons; the router and React's scheduling beyond
-- the order of events; controls whose handler only writes one field; `net/url`; the set-up of the process, the connection to its
-- database and the run of the migrations; the deployment files.
pub mod Common
pub mod Types
pub mod Browser
pub mod Api
pub mod Auth
pub mod Shell
pub mod Pages
pub mod Backend
pub mod TotpScript
pub mod Examples
