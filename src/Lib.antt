-- ===== src/Lib.antt =====
-- The billing core of the multi-brand invoicing platform: what an invoice costs, which states it goes
-- through, how payment attempts and gateway events settle it, and who may act on which brand.
--
-- Prelude and its children hold the shared names: Boolean tests, lists, results, integers (Int), and
-- JavaScript numbers (Double). An amount is an integer; where the source adds two of them outside its
-- checked helpers, js_add and js_sub round as a double does. That rounding is exact up to 2 ^ 55, and
-- no sum of two safe integers is greater.
--
-- Chars holds JavaScript strings as lists of character codes, with the operations that the source calls
-- on them (trim, padStart, padEnd, replace, and the pattern of a decimal).
-- Money models packages/shared/src/money/money.ts and the check of quantity.ts: assertMinor,
-- assertBasisPoints, divideRoundHalfUp, applyBasisPoints and their neighbours. BigInt steps are exact
-- integers. Money.Round is about the rounding.
-- Allocation models allocate of money.ts. Its weights are doubles, whose tests, sum and scaling are a
-- parameter (Weights); a scaled weight is a whole number, so that weights whose scaling overflows to
-- infinity, where BigInt throws, are left out. Its loop makes one round for each unit of the remainder.
-- Allocation.Parts and .Exact are about the shares.
-- Calculation models packages/shared/src/money/calculation.ts: calculate, quoteForMethod and what they
-- call. Calculation.Figures, .Methods and .Bounds are about its figures, about quotes for different
-- methods, and about inputs within business limits: 1,000 lines of at most 5 * 10 ^ 10 minor units
-- each, rates up to 100,000 basis points, and up to 10 ^ 15 minor units settled. Within them every
-- product and sum stays a safe integer.
-- Amounts models the rest of money.ts and quantity.ts that reads and prints: currencies, formatMinor,
-- parseMinor, formatQuantity and quantityFrom on a text. Amounts.RoundTrip is about them.
-- InvoiceStatus models packages/shared/src/domain/invoice-status.ts: evaluateTransition with its table
-- and guards, isOverdue, terminalStatusLabel. InvoiceStatus.Lifecycle holds its contract.
-- Roles models packages/shared/src/domain/roles.ts: the permission matrix, can, mayAssignRole,
-- grantsFor, hasGrant, checkAccess. Roles.Check is about them.
-- Tenancy models packages/shared/src/tenancy.ts and the guard of apps/api/src/tenancy/authorisation.ts:
-- scopes, reachable brands, the settings of the database session, canActivate. The look-up of a session
-- is a parameter, and the token is a field of the request. Tenancy.Reach is about them.
-- Store holds the rows of apps/api/prisma/schema.prisma that the services touch (Rows), the actions of a
-- service (Actions), and the database client and the job queue (Client): the client is an interface of
-- queries and writes with the laws that the services rely on, and withScope of
-- apps/api/src/infra/prisma/prisma.service.ts is a transaction whose writes are taken back on a throw,
-- jobs that were enqueued staying enqueued. Memory is an instance that runs. The query of the client for
-- the numbers of a brand's invoices stands for the unique index on them.
-- Payments models apps/api/src/payments/payments.service.ts. Types holds its data and the port of
-- packages/shared/src/ports/payment-gateway.port.ts, a gateway being a record of what its calls return.
-- Settle is applySettlement, Attempt is createIntent, Webhook is handleWebhook and
-- confirmClientResult; a transaction's body and what follows it are functions of their own, composed as
-- the code composes them. Effect says which rows a settlement changes, Outcomes what becomes of them,
-- Sound and SoundDelivery that invoices stay well-formed, Delivery what repeated and foreign events do,
-- Attempts and Retry what attempts do. The digest of an idempotency key is a parameter.
-- Invoices models issue, recordManualPayment and cancel of apps/api/src/invoices/invoices.service.ts,
-- the amount of a manual payment being parsed from its text. Invoices.Recorded is about the decision on
-- it, Kept and Outcomes about the rows that the operations leave. Invoices.Drafts holds the draft of a
-- new invoice and Invoices.Creation its create, with the sequence of a brand's numbers; Creation.Created
-- says which drafts read, Lines what is created of their lines, Numbers, Numbered and Distinct are about
-- the numbers, Issued about what follows. The rows hold integers without bounds; the insertion of an
-- invoice refuses what the 32-bit columns of the schema do not hold, among them the quantity of a line.
-- Numbered states each field of the invoice that a draft becomes (IsDraftOf).
-- Checks models apps/api/src/checks/checks.service.ts: approve and reject, which call Invoices. Review
-- and Approval are about them.
-- Public models resolveScope, view and submitCheck of apps/api/src/public/public-invoices.service.ts.
-- The Stripe account of a brand, the fetching of lines from Zoho and the storing of an image are
-- parameters. Public.Views is about visits of the page, Public.Paid about a check from its submission to
-- its approval.
-- Concurrency models mapWithConcurrency of apps/api/src/common/concurrency.ts: its runners share a
-- counter and the results, and a schedule is the order of their turns. Slots is about one step, Collected
-- and Resolved about the results, Turns about the number of turns.
-- FakeGateway models the gateway of local runs and tests, apps/api/src/adapters/gateway/fake-gateway.adapter.ts,
-- with its maps from references and keys to intents. FakeGateway.Keys and .Again are about its keys.
-- RateLimit models the rate tokens and sync guards of apps/api/src/infra/redis/redis.service.ts on an
-- interface of the cache, whose seconds are natural numbers; Memory is an instance. Window is about the
-- calls of a window.
-- UsPhone models packages/shared/src/domain/us-phone.ts. UsPhone.Normal is about its results.
-- Auth models apps/api/src/auth: Rows holds the tables, Sessions session.service.ts, Resets
-- password-reset.service.ts, Service auth.service.ts (login, the lockout, set-password links, logout).
-- Hashes and random tokens are parameters, and so is whether the mail of a requested link goes out: where
-- sending throws, the request ends with the link issued. Tokens, Lockout, SignIn and Passwords are about
-- them; Limited puts the requests for a set-password link behind the rate limiter.
-- Users models updateRole, updateBrands and updateStatus of apps/api/src/users/users.service.ts on the
-- tables of Auth, and Users.Invitations its invite, whose mail is taken to go out. Users.Returned says what a call that returns has
-- checked, Owners what becomes of a merchant's owners, Invitations.Reachable what an invitation leads
-- to.
-- IntegrationErrors models the classes, retry policies and status codes of
-- packages/shared/src/ports/errors.ts.
-- Tests applies the theorems to a small shop.
--
-- All functions are total: loops recurse on lists, and none needs fuel. The runners of Concurrency recurse
-- on the schedule, which may be any list of turns.
--
-- Not modelled: texts that are only shown or logged, listing queries, row level security inside the
-- database, connections and the queue's workers; remote services behind the ports, beyond what their calls return or throw above; the applications'
-- user interfaces; the texts of basis points; registration and the profile of a user; the
-- remaining services (customers, brands, accounting synchronisation) and the rest of the invoices
-- service (bulk send, mails, listing).
pub mod Prelude
pub mod Chars
pub mod Money
pub mod Allocation
pub mod Calculation
pub mod Amounts
pub mod InvoiceStatus
pub mod Store
pub mod Public
pub mod RateLimit
pub mod Roles
pub mod Tenancy
pub mod Payments
pub mod Invoices
pub mod Auth
pub mod UsPhone
pub mod Users
pub mod Checks
pub mod Concurrency
pub mod FakeGateway
pub mod IntegrationErrors
pub mod Tests
