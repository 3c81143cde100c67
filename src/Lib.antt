-- ===== src/Lib.antt =====
-- Verification of the control plane of 2papi (control-plane/), the Next.js service that keeps the
-- configuration, the accounts and the balances of the gateways.
--
-- The parts modelled, and the files that model them:
--   * Reset: control-plane/lib/codex/quota.ts, spending a provider's reset credit. Reset.Table has the
--     rows of provider_operations and the statements on them, Reset.Checks the tests of answers,
--     Reset.Actions the transactions (prepare, update_after_dispatch, reconcile_commit, resolve) and
--     Reset.Flow the requests (`reset` for resetCodexQuota, `reconcile` for
--     reconcileCodexQuotaReset); Reset.Refresh has refreshCodexQuota. The provider's answers, the
--     clock's readings and Date.parse are arguments; every call to the provider is recorded.
--     Reset.Steps has the step relation of all transactions, so that Reach is any interleaving of
--     requests.
--   * Billing: the tables that usage and payments share (Billing.Tables), storeRequestEvents of
--     control-plane/lib/request-events.ts (Billing.Events), paddleWebhookCore of
--     control-plane/lib/webhooks.ts (Billing.Credits) and reconcileTeamBalances of
--     control-plane/lib/balance.ts (Billing.Reconcile). Money is counted in millionths of a dollar.
--     The constraints of the tables are those of control-plane/migrations. The MAC of a text and the
--     schema that reads a body are arguments.
--   * Snapshot: control-plane/lib/snapshots.ts. Snapshot.Compile has compileDeclarativeSnapshot on the
--     rows of Snapshot.Tables, with the settings of Snapshot.Settings; each table stands in the order
--     of its query, and money, costs and thresholds are counted in millionths. Snapshot.Fallbacks has
--     validateFallbackChains: its `while` loop runs on fuel, two rounds more than the table has
--     aliases, which is shown to be enough.
--   * Proxies: control-plane/lib/proxylib.ts. Proxies has one entry (parse_proxy_entry, mask_proxy,
--     normalize_proxy), Proxies.Listing the lists. What the JavaScript engine does with a text
--     (Number, URL, decodeURIComponent, JSON.parse) is the record Engine. An exception is a value
--     apart from a reason, and a run that ends by one keeps the listing so far.
--   * Discovery: control-plane/lib/codex/operations.ts, the models that accounts offer. Metadata is
--     filtered in Discovery.Secrets and cut to 32 KiB in Discovery.Metadata (the loop that takes
--     properties away has one round of fuel for each); Discovery.Catalog stores the models and runs
--     the discovery over a scope, where the gateway's answers are an argument; Discovery.Workers has
--     the workers of mapLimit, which a schedule, a list of turns, interleaves.
--     Discovery.Grouped has groupedDiscoveredModels.
--   * Metadata: control-plane/lib/model-metadata.ts; what Number and Date.parse make of a text is an
--     argument.
--   * Migration: control-plane/lib/snapshot-migration.ts, with the parts that may stay and the test for
--     credentials in Migration.Parts; the digest of a snapshot and the text of a URL without its hash
--     and query are arguments.
--   * Leases: control-plane/lib/redis.ts with its store in memory. A stored value is read back as it
--     was written, so the JSON texts are left out. Leases.Interleaved has sequences of all its calls.
--   * Deletion: control-plane/lib/resource-deletion.ts, with the foreign keys of
--     control-plane/migrations.
--   * Routes: importSelection and renameModelAlias of control-plane/lib/codex/operations.ts and
--     control-plane/lib/model-routes.ts. Each change compiles the configuration with Snapshot and
--     stores a draft with Publish; the digest of a snapshot and new ids are arguments.
--   * RateLimit: control-plane/lib/rate-limit.ts. The module's Map is an association list.
--   * Ipacl: control-plane/lib/ipacl.ts. Addresses are texts, lists of characters.
--   * Accounts: signup, verification, login and logout of control-plane/lib/cloud-auth.ts and the
--     sessions of control-plane/lib/auth.ts. Hashes, the check of a password and what a request makes
--     up (tokens and row numbers, taken as fresh) are arguments; the outcome of the rate limiter is
--     one too.
--   * Operators: who may change the configuration. Operators.Tokens has control-plane/lib/jwt.ts,
--     Operators.Editions the licenses and the cached edition of control-plane/lib/edition.ts,
--     Operators.Gate its requireOperator with tokenCore of control-plane/lib/cloud-auth.ts. HMACs,
--     Ed25519, base64url and JSON.parse are arguments; the sessions are those of Accounts.
--   * Publish: publishLatest, storeDraft and assertSchemaV2Publishable of control-plane/lib/control.ts.
--     The compilation of a draft is an argument, and the audit row is left out. Publish.Acks has
--     persistGatewayAck, with the digests of a version as arguments.
--   * Common: what the parts share: Boolean tests, lists, maps, texts, JSON, results and integers.
--
-- A handler that throws is a Result: an ApiError keeps its status and its code, and the messages for
-- people are left out. A transaction that throws is rolled back, so a Result with an error has no
-- state. Times are milliseconds as natural numbers.
--
-- Not modelled: the dashboard and its texts, the HTTP routes that only pass requests on, the
-- scheduling of background jobs and encryption, which are input and output or calls of other
-- libraries; and the rest of control-plane/lib: the secrets of runtime snapshots and the choice of the
-- snapshot that a gateway is sent, the export and import of whole configurations, the exchanges with
-- providers and identity providers, and quotas.
pub mod Common
pub mod Accounts
pub mod Billing
pub mod Deletion
pub mod Discovery
pub mod Ipacl
pub mod Leases
pub mod Metadata
pub mod Migration
pub mod Operators
pub mod Proxies
pub mod Publish
pub mod RateLimit
pub mod Reset
pub mod Routes
pub mod Snapshot
