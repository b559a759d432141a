-- ===== src/Lib.antt =====
-- Verification of the credit core of gpt2api, a gateway that sells image and chat requests for
-- credits. The credits of a user are two columns of `users`, what is available and what is frozen
-- for a running request, and every change of them is a row of `credit_transactions`. Four packages
-- move credits, and this library models them over one database. A request comes with an API key,
-- goes to a channel or runs on an account of the pool, and accounts and proxies are leased one at a
-- time under locks; these parts are modelled over tables of their own:
--
-- Prelude       shared names, Boolean tests, and int64 as integers with `wrap64` for wrap-around
-- Db            the rows of sql/migrations by the columns that the code uses (Rows), tables as
--               keyed lists (Table, Keys), and calls on the database (Action)
-- Billing       internal/billing/engine.go: PreDeduct is pre_deduct, Settle settle, Refund
--               refund_credits, Recharge recharge_credits, creditTx credit_tx with award_checkin_tx
--               and redeem_tx. Posting and Calls say what each call writes, Account is the abstract
--               view (per user an account and a ledger sum), Effects the calls in that view, Credit
--               and Logged what the other packages use, Calm and Lifecycle the runs in which nothing
--               fails, History any sequence of calls
-- Redeem        internal/redeem: DAO.Redeem is redeem_code, Service.Generate generate. Payout says
--               what a redemption does, Once counts those of one code
-- Checkin       internal/checkin: DAO.Claim is claim, Service.Checkin check_in. Award says what a
--               claim does, Daily counts those of a user and a day
-- Epay          pkg/epay: Sign, Verify, BuildPayURL and ParseNotify; Signs is their round trip
-- Recharge      internal/recharge: HandleNotify is handle_notify, settle settle_order, CancelByUser
--               cancel_by_user, ExpirePending expire_pending, AdminForcePaid admin_force_paid, Create
--               create (in Create; Create.Opening says what it opens). Owed, Steps and Settle
--               prepare Ways, what each call does to orders and ledger, and History, any
--               sequence of them
-- Lock          pkg/lock/redis_lock.go: Acquire, Release and Refresh; Holding is mutual exclusion
-- Proxy         internal/proxy/allocator.go with its queries in dao.go: Lease is lease, Release
--               release_lease, MarkFailure mark_failure; Leasing says what is handed out
-- ApiKey        internal/apikey: Create is create_key, EnsureInternalKey ensure_internal_key, Verify
--               verify_key. Cap says what a creation does, Access who is let in, History any
--               sequence of calls
-- Channel       internal/channel: Create is create_channel, Update edit_channel, MarkHealth
--               mark_health; Mappings those of models, Router Resolve as resolve. Counted and Health
--               prepare History, any sequence of calls. Order prepares Routing, on resolve, with
--               the rows of its query in Routing.Candidates and the routes to them in Routing.Routes
-- Account       internal/account/dao.go: what the statements make of the table; Rows says what
--               ListDispatchable selects
-- Scheduler     internal/scheduler/scheduler.go: the settings and marks, tryDispatchOnce in Attempt,
--               Dispatch and Release in Dispatch. Waiting is on its loop, Proxies, Locks and Leasing
--               on what is leased, Exclusive on locks that are taken, Releasing on Release
-- RateLimit     internal/ratelimit over pkg/ratelimit: AllowRPM is allow_rpm, AllowTPM allow_tpm,
--               AdjustTPM adjust_tpm, the script allow; Window bounds what is let through
-- Pricing       internal/billing/pricing.go: ComputeImageCost is compute_image_cost, ComputeChatCost
--               compute_chat_cost; Bounds compares costs. A cost beyond int64 is the least int64,
--               as Go converts a float on amd64
-- Image         internal/image: the statements on tasks; Runner has the retries and batches of
--               runner.go (runWithRetry is run_with_retry, runParallel run_parallel), Archive the
--               stores (ArchiveExternalImages is archive_external_images), Run the whole of Run.
--               Retrying, Batches, Kept, Bounded and Outcome say how they end
-- Gateway       internal/gateway: ImageGenerations is image_generations (Generate) and
--               dispatchImageToChannel dispatch_image_to_channel (Dispatch), with the references
--               (References), the calls of a route (Retry) and the credits (Charge). Shift composes
--               the calls of Billing, Charged says what a request takes, Exact the same where nothing
--               fails, Owed what one that the pool serves takes, Complete which route is picked, with the
--               rounds of one route in Rounds
--
-- How the code is read. A method on the database is an Action: it takes a session (the database,
-- the turn, and which turns fail in the driver) and returns a value or an error with the session
-- after it. Each BEGIN, SQL statement and COMMIT takes one turn and may fail there; a statement or
-- a COMMIT that reports an error has changed nothing, and a transaction that ends in an error is
-- rolled back. Calls run one after the other: inside a transaction that is what the row locks of
-- `FOR UPDATE` and of `UPDATE` give. A statement whose result would leave the int64 columns is
-- refused (out_of_range), as MySQL does in strict mode; sums that Go computes wrap around.
-- A time is a number, 0 for Go's zero time. ApiKey and Channel use Call, which is the same over
-- any state and without transactions; Proxy and Scheduler count turns in their own state.
-- The loop of Dispatch runs on fuel, one round for each nanosecond of the wait and one more, which
-- is enough since every wait is at least a nanosecond; between two rounds the world may
-- change in any way. The retries and batches of images are bounded as in the code, and all other
-- loops are over lists.
--
-- Arguments of the definitions, since their code is a library's: the digest, the sorting of keys
-- and the folding of case (Epay), upper-casing and trimming (Redeem), the layout of dates
-- (Checkin), reading an amount in yuan as fen, the text of a form and of a number (Recharge), the
-- decrypted URL of a proxy and the name of its lock (Proxy), the digest and the lists of an API key
-- (ApiKey), AES-GCM and the adapter of a channel (Channel), the local day (Scheduler), and random
-- texts. A ratio counts millionths where the code has a float. The records Ports and Deps hold what
-- the runner and the handlers of images call: texts and floats, the stores, the upload and download
-- of images, thumbnails, the adapters, and the code that is left out here: one attempt of the runner
-- (runOnce), the readers of models, groups and uploaded references, prompts and proxy URLs.
--
-- A request for images runs over a Site: the credits, the tasks and accounts, the keys, the channels,
-- the buckets and the log, each as its own part models it. The attempts of a batch run one after the
-- other, in the order in which they end.
--
-- Not modelled: pages of listings, the sending of mail, the import and refreshing of accounts, the
-- attempts against the upstream, the chat requests, and the image requests by form or by chat, which
-- repeat the steps of ImageGenerations.
mod Prelude
pub mod Db
pub mod Billing
pub mod Redeem
pub mod Checkin
pub mod Epay
pub mod Recharge
pub mod Lock
pub mod Proxy
pub mod ApiKey
pub mod Channel
pub mod Account
pub mod Scheduler
pub mod RateLimit
pub mod Pricing
pub mod Image
pub mod Gateway
