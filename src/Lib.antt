-- ===== src/Lib.antt =====
-- The IaaS platform: its dashboard, internal/dashboard/static/app.js, the single-page program that
-- the server serves, and of the server under internal/ the instances, the organizations, the
-- webhooks, the accounts, the invoices, the audit trail, the validation of requests, the histograms
-- and the rate limiter.
--
-- The parts, and where they are modelled:
-- - Base, Base/Lists, Base/Tests, Base/Text: library names, lists over the native numbers, Boolean
--   tests, and texts as lists of UTF-16 code units with `trim`, `parseInt` and the printing of
--   numbers. A text literal is read by `lit`.
-- - Api: the JSON objects that are read, `asArray`, `api` from the answer of `fetch` on (`settle`),
--   the `Authorization` header (`bearer`) and the requests that are made (`Endpoint`).
-- - Rows: `orgRow`, `memberRow`, `daysLeft`, `instanceRow`, `invoiceRow`, `webhookRow`, the two
--   functions of the action buttons, and the colors of badges.
-- - World and World/Ops: the variable `state`, `localStorage`, the document, the timers and the
--   waiting calls; `notify`, `toast`, `modal`, `addActivityLog`.
-- - Session: the start of the page (`init`), the login, the signup, the reset of a password and
--   `logout`. Account: the settings and the two dialogs of the account.
-- - Pages: `render`, `renderView`, `renderSettings` (Frame), `renderDashboard` (Dashboard),
--   `renderOrgs`, `renderOrgDetail` and the navigation (Orgs), the notification center (Center).
-- - Tabs: `switchTab` and the tabs Members, Billing, Webhooks and Audit with their commands.
-- - Instances and Instances/Form: the details dialog, `action`, `createInstance`, the presets and
--   the estimated cost. Orgs: `createOrg` and the slug that its form derives.
-- - EventLoop: what a waiting call does with its answer (`resume`), what the user can start
--   (`handle`), the timers (`run_job`), the steps and the reachable worlds.
-- - Lifecycle: `instanceTransitions` and `canTransition` of internal/compute/service.go; Offers
--   compares the buttons with the requests of Server/Compute/Service.
-- - Server/Compute: the tables of instances, quotas, regions and provider states with their queries
--   (internal/database/compute.go, quota.go, capacity.go, provider.go); Service: `Create`, `Get`,
--   `Start`, `Stop`, `Terminate` and the checks of quota and capacity; Provider: `SimProvider`;
--   Reconciler: `Tick`; System: the sequences of requests, ticks and delays. Requests, Limits and
--   Kept say what these do to the rows and to the sums of the active ones; Found and Settling what
--   they do to one row; Coherent, Calls, Growing and Runs compare the rows with the provider;
--   Overlapping and Overshoot let requests that create instances overlap.
-- - Server/Orgs: the tables of internal/database/organizations.go; Service: the operations of
--   internal/organizations/service.go; System: their sequences. Admins and Keeps follow the admins
--   of an organization through each operation.
-- - Server/Webhooks: the tables of internal/database/webhooks.go and `Emit`; Events: the checks of
--   internal/webhooks/store.go; Service: the operations of internal/webhooks/service.go; Dispatcher:
--   internal/webhooks/dispatcher.go; Turns: their sequences. Checked and Effects say what a request
--   may store and what it does to the tables; Prompt and Emitted follow an event to its endpoints,
--   Listed and Exhausted a delivery without attempts left.
-- - Server/RateLimiter: `allow`, `cleanup` and the key of internal/middleware/ratelimit.go.
-- - Server/Auth: `Login`, `RequestPasswordReset` and `ResetPassword` of internal/auth/service.go over
--   the tables of internal/database/users.go and password_resets.go; Signup: `Signup` and
--   `Authenticate` of that file and internal/auth/middleware.go. Stored says what a signup stores,
--   Kept what it leaves as it was, Newcomer joins it to the acceptance of the join request in Server/Orgs.
-- - Server/Billing: `RecordUsage`, `GetUsage`, `GenerateInvoice` and `GetInvoiceLineItems` of
--   internal/billing/service.go over the tables of internal/database/billing.go.
-- - Server/Validate: the struct tags of internal/validate/validate.go; Requests: those of two requests
--   of internal/models.
-- - Server/Audit: `Record` and `List` of internal/audit over the table of internal/database/audit.go.
-- - Server/Metrics: the samples of internal/metrics/metrics.go and the lines of a histogram.
-- - Server/Paging: `PageParams` of internal/httpx/pagination.go.
-- The modules below a part hold its properties; Tests holds runs at concrete data.
--
-- How the code is modelled:
-- - A handler is a function from worlds to worlds. Where it awaits `api` it leaves a `Pending` with
--   the requests and a `Task`, the place where it goes on with the variables used from there. The
--   answers come in any order, between any clicks and timers, and may be anything: `fetch`, the
--   server and the clock are not modelled. `Promise.all` is one `Pending` with several requests.
-- - `#main` and `#tab-content` are numbered each time that they are created. What is written to an
--   element that is no longer in the document is lost.
-- - A handler that throws keeps what it did up to there; the rest does not run.
-- - A template is the record of what it puts in; `escaped` and `raw` say whether a text goes
--   through `escape`. Static markup, styles and the formats of dates are left out.
-- - A date is its number of milliseconds. A usage figure is a whole number of thousandths of an
--   hour. Costs are whole cents, rounded once from the exact amount, where the source adds floats.
-- - An operation of the server is a function of the tables; which of its calls of the database or
--   of the provider fail is an argument, and what was done before a failing call stays. Operations
--   follow each other and do not overlap, though the code runs them without a transaction; only the
--   requests that create instances are also taken in two steps (Server/Compute/Overlapping). What an
--   insert or an update refuses by a key or a type is written out; foreign keys always hold.
-- - The answer of a webhook's endpoint, the identifier that `newProviderID` makes, the secret that
--   `newSecret` makes and the outcome of the membership check of a request on instances or webhooks
--   are arguments, and `url.Parse` is a parameter. `strings.ToLower`, SHA-256, bcrypt,
--   the JWTs and the random tokens are parameters.
-- - The 64-bit sums of the quota and capacity checks, the total of an invoice and the delay of a
--   retry wrap as in the source. The arithmetic and the comparisons of float64 and the
--   calendar of the invoices are parameters.
-- - `toLowerCase` is modelled as far as the slug can see it. A body is of the kind that the
--   request expects, a list may come in the shapes that `asArray` tells apart, and of the body of a
--   failed answer only `error` is read.
-- - The digits of a number n are printed with fuel n + 1, since each digit but the first divides
--   the number by ten. Everything else is structural recursion.
--
-- Not modelled: the JWT library, mail, the registry of the metrics and the HTTP handlers and
-- wiring of the server, which the page reaches through `fetch` only; the payloads and the
-- signatures of webhooks; operations that overlap, but for the creation of
-- instances; the operations that only read a page, but
-- `ListMembers`; the static pages, the styles, and the vendored Swagger bundle.
pub mod Base
pub mod Api
pub mod Rows
pub mod Lifecycle
pub mod World
pub mod Pages
pub mod Session
pub mod Account
pub mod Tabs
pub mod Instances
pub mod Orgs
pub mod EventLoop
pub mod Server
pub mod Tests
