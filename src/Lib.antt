-- ===== src/Lib.antt =====
-- A model of the backend of the tutoring marketplace (Go, backend/internal): its weekly availability,
-- the slots that students book, the life of a booking, the money held for it, the payouts to
-- teachers, the disputes, the reviews, and the accounts with their sessions and roles.
--
-- How the parts interact. A teacher replaces a weekly set of slots (Availability). The slots of a
-- period are the starts at which a lesson fits in the weekly hours and meets no booked lesson
-- (Slots); a booking request re-checks its start, and the database's exclusion constraints have the
-- last word (Bookings.Browse, Bookings.Repository). A booking opens a payment intent; paying it,
-- completing the lesson and cancelling it call the payments service, whose provider answers with
-- events that a transaction applies once to payments, bookings and the ledger (Payments). A payout
-- run settles the cleared rows of the ledger (Payouts). A dispute that an operator resolves may
-- refund the booking (Disputes). The student of a completed lesson may
-- review it once, and the visible reviews make the teacher's rating (Reviews). Accounts sign in by
-- password and keep their sessions by refresh tokens that are used once (Auth); what an operator may
-- do is read from the roles at each request (Rbac). A teacher's profile is public once an operator
-- has approved it (Teachers).
--
-- Files (the source paths are under backend/internal):
--   Clock, Slots, Slots/*     bookings/bookings.go: projectSpans, mergeIntervals,
--                             overlapsAny, generateSlots, isBookableStart
--   Store, Store/Table        the rows of the tables, and the state of the in-process provider
--   Effect, Effect/Keeps      a call: it changes the world, and returns a result or an error
--   Payments/Events           payments/service.go HandleWebhook, Emit; repository_postgres.go ApplyEvent
--   Payments/FakeProvider     payments/fake_provider.go
--   Payments/Service          payments/service.go InitiatePayment, Authorize, Capture, Refund,
--                             SnapshotForBooking; payments/gateway.go
--   Payments/Earnings         payments/payments.go effectiveState, summarize
--   Payments/Replay, Payments/MoneyPath, Payments/Summary,
--     Payments/Outcome         theorems and lemmas on these
--   Bookings/Pricing          bookings/bookings.go hourlyPrice, AllowedDuration
--   Bookings/Repository       bookings/repository_postgres.go
--   Bookings/Ports            the ports of bookings/service.go, with participant and snapshot
--   Bookings/Browse           bookings/service.go Slots, Create, Get, GetWithPayment
--   Bookings/Lifecycle        bookings/service.go Pay, Complete, Cancel, doCancel, AdminForceCancel,
--                             AdminRefund, SetMeetingLink, NoShow
--   Bookings/Journey, Bookings/Cancellation, Bookings/Decline, Bookings/Calendar   theorems on these
--   Bookings/Machine          the states of a booking as an abstract machine
--   Bookings/Money, Bookings/Intents, Bookings/Moves, Bookings/Endings, Bookings/Absences,
--     Bookings/Steps          what each call does to the bookings, as steps of the machine
--   Payouts, Payouts/*        payouts/repository_postgres.go Run, Totals; payouts/payouts.go
--   Availability, Availability/Laws   availability/availability.go validateSlots, sortSlots;
--                             service.go and repository_postgres.go Replace
--   Disputes, Disputes/Laws   disputes/service.go Raise, Resolve, with the repository beneath
--   Auth, Auth/Repository, Auth/Service   auth/auth.go, token.go, password.go; repository_postgres.go;
--                             service.go: Register, Login, Refresh, Logout, RequestPasswordReset,
--                             ResetPassword, VerifyEmail, ResendEmailVerification, UpdateCurrentUser
--   Auth/Sessions, Auth/Recovery   theorems on refresh tokens and on the reset of a password
--   Rbac, Rbac/Repository, Rbac/Service   rbac/rbac.go, permissions.go; repository_postgres.go;
--                             service.go; guard.go
--   Rbac/Changes, Rbac/Steps, Rbac/System, Rbac/Access   what calls do to roles; who passes the guard
--   Reviews, Reviews/Repository, Reviews/Service   reviews/reviews.go; repository_postgres.go;
--                             service.go; db/queries/reviews.sql RecomputeTeacherRating
--   Reviews/Create, Reviews/Ratings, Reviews/Soundness, Reviews/Steps, Reviews/Moderation   theorems
--   Teachers, Teachers/Profile, Teachers/Slug, Teachers/Repository, Teachers/Service,
--     Teachers/Search         teachers/teacher.go, slug.go, repository_postgres.go, service.go
--   Teachers/Moderation       admin/service.go Approve, Reject, Suspend, SetVerified, with the
--                             queries of admin/repository_postgres.go
--   Teachers/Changes, Teachers/States, Teachers/Effects, Teachers/Steps, Teachers/Lives   what calls
--                             do to the profiles
--   Teachers/Lists, Teachers/Reading, Teachers/Storing, Teachers/Publishing   a profile is stored
--                             and read back
--   Teachers/Naming, Teachers/Grammar, Teachers/Validity, Teachers/Filters, Teachers/Listing   free
--                             slugs, their form, the validation, the catalogue and its filters
--   Prelude/*, Samples, */Tests   shared helpers, sample data, and runs of the code
--
-- Conventions. An instant is a number of nanoseconds since Go's zero time, so all calendar days are
-- UTC days and midnight is a multiple of 24 hours. A uuid is a number and uuid.Nil is 0; a generated
-- uuid is the next unused number. An int64 amount is a number, with sums and products taken modulo
-- 2 ^ 64 where the code computes them. A request's slot has integers that may be negative. A nil
-- port is `none` or `false`. A method token is the token after trimming. Where the gateway returns
-- a snapshot of a payment (its status and amount), the model returns the payment's row. A stored
-- password is a PHC string by its fields; random values are numbered by the draw; raw tokens and
-- digests are texts. A rating is a number of tenths, of the teacher's baseline too. A length in bytes
-- is that of the UTF-8 text.
--
-- Bounds. The loop over the days of projectSpans runs on fuel, one round for each day between the
-- first and the last and one more; Slots.Projection shows that this reaches every day. The loop over
-- the starts of a window runs on fuel for every half-hour step that fits in the window; Slots.Scan
-- shows that each start in the window is visited. The search for a free slug has the thousand rounds
-- of the source; Teachers.Naming shows when they are enough.
--
-- Assumptions. A query on the database does what its SQL says and does not fail otherwise; the
-- columns of a teacher that a booking reads are stored with the booking. strings.TrimSpace, strings.ToLower, the
-- number of runes of a text, ILIKE, the time zones that are known, the parsing of URLs and of mail addresses, argon2, the digest, the
-- signing of tokens and the database's order on texts are parameters. Two events of one provider
-- have different ids where their references or types differ. The calls to the task queue and the
-- notifier are logged and not followed. Each call runs alone; the rows that another payout
-- transaction holds are a parameter of the run.
--
-- Not modelled: HTTP handlers and JSON, the webhook signature, most paged lists for display,
-- files, mails, the lists and figures of the admin dashboard, generated queries,
-- and the commands that wire the parts together.
pub mod Prelude
pub mod Clock
pub mod Slots
pub mod Store
pub mod Effect
pub mod Payments
pub mod Bookings
pub mod Availability
pub mod Payouts
pub mod Disputes
pub mod Auth
pub mod Rbac
pub mod Teachers
pub mod Reviews
pub mod Samples
