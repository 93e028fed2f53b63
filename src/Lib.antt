-- ===== src/Lib.antt =====
-- CloudMeter sells the running of containers: users top up a wallet, buy subscriptions and deploy
-- apps, an API server (internal/httpapi) keeps the accounts in PostgreSQL, and a worker (apps/worker)
-- moves deployments forward and bills usage. This library models the parts of the Go code that move
-- money and deployments.
--
-- How the code is read. A handler that works in a database transaction is a function of the monad of
-- Common/Tx: a session holds what the transaction sees and what is committed, and any database call may
-- fail, as an oracle says. A handler returns early by `answer` or `reject_if`; what was not committed is
-- dropped. Each table is a list of rows with its id, and a SQL statement is a function on the store that
-- meets the constraints of the migrations. Requests follow one another, as the transactions of isolation
-- level Serializable of the payment handlers do, and the locks of rows that the others take. Ids and
-- times that the database gives are arguments. An int64 wraps around (`add64`, `sub64` of Common/Int).
--
-- Files, and the code that they model:
--   Common          tests, association lists, integers, texts (package strings), transactions
--   Domain          internal/domain/state.go: the transition tables; Domain/Laws has chains of moves
--   Money           the tables wallets and wallet_ledger_entries; Balance and Post say when the books
--                   balance and that an entry posted with its balance keeps them so
--   Payments        the tables of orders and refunds
--     Create        createPaymentOrder of internal/httpapi/payment_features.go
--     Topups        markPaymentPaid of the same file
--     Refunds       refundPayment of the same file
--     Adjust        adjustWallet of internal/httpapi/server.go; Adjust/Repeat has the same request twice
--     Operations    internal/httpapi/payment_operations.go with the providers of payment_provider.go
--     Callback      internal/httpapi/epay_callback.go
--     Amount        parseAmountCents and centsAmountText
--     Methods       validatedPaymentMethods of internal/httpapi/payment_features.go; Methods/Valid says
--                   what is accepted
--     Effects       what each handler may leave in the database
--     Sound         the invariant of money, orders and refunds, and its preservation by each change
--     System        all requests together, from any sound store
--     Complete      the requests when no database call fails
--   Deployment      the tables of jobs, releases, apps, routes and ports, and the choice of the next state, of
--                   apps/worker/main.go
--     Progress      the passes of a job
--     Worker        processOne and markJobError; Worker/Rows has the statements on their rows
--     Persist       the rows of a new container
--     Effects       what the parts of a pass leave; Moves, Passes, Invariants, Active and Stuck build on them
--   Subscription    addCalendarMonth and quoteSubscription of internal/httpapi/subscription_features.go
--     Purchase      purchaseSubscription of the same file; Purchase/Tables has its tables and
--                   resumeSubscriptionApps
--     Effect        what the parts of a purchase leave; Atomic and Balance build on it
--   Billing         the split of a charge in billUsage of apps/worker/main.go
--   Products        deleteProductVersion of internal/httpapi/version_lifecycle.go and
--                   resolveAppAccessPolicy of internal/httpapi/app_access_policy.go
--   Runtime         internal/runtime/spec.go: the specification of a container
--     Float, Value  float64 and the values of decoded JSON; Result has the messages of all checks
--     Patterns      its regular expressions, and functions of package strings
--     Resources, Secrets, Dependencies, Settings, Volumes
--                   the parts of a specification; their child modules state what is accepted
--     Validate      ValidateRuntimeSpec
--     Names         the names of networks, volumes and helper containers
--   VersionSpecs    internal/httpapi/product_spec.go: Fields, Listeners and Normalize
--     Probe         what apps/worker/main.go reads of the specifications when they are stored
--   Selection       the resources that a user chooses for an application
--     Steps         selectedRuntimeSpec of internal/httpapi/server.go; Contract says what it keeps
--     Routes        selectedRouteSpec of the same file
--     Update        runtimeSpecForUpdate of internal/httpapi/app_lifecycle.go
--   Egress          apps/egress-proxy/main.go: Address has publicIP, Proxy the handler
--   EmailPolicy     internal/httpapi/email_policy.go; Whitelist is about the stored domains, Allowed about
--                   the addresses that are accepted
--   The Tests modules evaluate the definitions and state the results at concrete values.
--
-- Parameters, for what the Go code calls and does not contain: MD5, the decryption of stored secrets, the
-- database's reading of a UUID, net/url, bcrypt, SHA-256, and the SQL function grant_subscription_credit.
-- strings.ToLower and mail.ParseAddress are parameters of EmailPolicy. Of the egress proxy's calls, the
-- resolver, the connections, base64 and the HMAC are parameters too.
-- Bounds: the digits of a number are printed on fuel one above the number, which has fewer digits.
-- A float64 is a whole number of units of 2^-1074 or a special value, which is exact for a comparison. A
-- specification is the list of its fields, each key once; a map that the code changes in place is
-- returned changed. 16 passes are taken for a job, since it needs one for each of five moves, and a health check is
-- repeated at most ten times, the attempts before it counted in.
--
-- Not modelled: the container executor, whose work for a job is given by its outcome; usage billing,
-- but for the split of a charge; the handlers of an application's lifecycle; the router; accounts and
-- sessions; backups; the settings of the console; listings.
-- Metadata columns that no statement reads back are left out.
pub mod Common
pub mod Domain
pub mod Money
pub mod Payments
pub mod Deployment
pub mod Subscription
pub mod Products
pub mod Billing
pub mod Runtime
pub mod VersionSpecs
pub mod Selection
pub mod Egress
pub mod EmailPolicy
