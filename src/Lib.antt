-- ===== src/Lib.antt =====
-- A model of review-agent, an automatic reviewer of pull requests written in TypeScript.
--
-- The agent (packages/runner) reviews one diff. It splits the diff by file and drops the files of
-- the path filters, stops where the diff is over a size cap, scans it for secrets, calls the model
-- through a cost guard, and passes the findings of the model through deduplication and three
-- filters before it scans, redacts and returns them. The core package (packages/core) holds the
-- decisions that the runner and the servers share, and the chain of audit rows. The server
-- (packages/server) reads commands in comments and turns the events of GitHub into review jobs,
-- pauses, replies and installations, and the signed deliveries of CodeCommit into jobs too; a worker
-- hands the jobs on. Feedback on findings goes through a writer into the history that the next review
-- reads. The configuration (packages/config) merges presets, an organization and a repository; the
-- database package (packages/db) keeps the states of reviews and the audit log. The action and the command line build the diff
-- text that the agent reads.
--
-- Which file models what:
--   Common               Boolean tests, lists, texts, sets and splitting, shared by all
--   Core/Review          packages/core/src/review.ts: data, `computeReviewEvent`
--   Core/Glob            packages/core/src/glob.ts: `globToRegExp`, `isValidGlob`
--   Core/Cost            packages/core/src/cost.ts: `decideCostAction`
--   Core/Retry           packages/core/src/retry.ts: `withRetry`
--   Core/Audit           packages/core/src/audit.ts: `appendAuditRow`, `verifyAuditChain`,
--                        `verifyAuditChainSegment`
--   Core/Queue           packages/core/src/queue.ts: the message of a job and its schema
--   Core/Incremental     packages/core/src/incremental.ts: `computeDiffStrategy`
--   Runner/DiffFilter    packages/runner/src/diff-filter.ts: `parseDiffByFile`,
--                        `applyPathFilters`, `reassembleDiff`, `countDiffLines`
--   Runner/Effects       the state and the errors of one review, and the calls of the outside
--   Runner/CostGuard     packages/runner/src/middleware/cost-guard.ts: `createCostGuard`
--   Runner/Dedup         packages/runner/src/middleware/dedup.ts: `dedupComments`
--   Runner/Gitleaks      packages/runner/src/gitleaks.ts: `shouldAbortReview`, `applyRedactions`
--   Runner/Types         packages/runner/src/types.ts and packages/llm/src/types.ts
--   Runner/Agent         packages/runner/src/agent.ts: `runReviewInner` and its helpers
--   Runner/StateBuilder  packages/runner/src/state-builder.ts: `buildReviewState`
--   Runner/Tools         packages/runner/src/tools.ts: `resolveSafePath`, `read_file`; Tools/Search:
--                        `glob` and `grep`
--   Runner/AutoFetch     packages/runner/src/auto-fetch.ts: `collectAutoFetchContext`
--   Runner/Conversation  packages/runner/src/conversation-runner.ts: `handleConversationReply`
--   Runner/FeedbackWriter  packages/runner/src/feedback-writer.ts: `createFeedbackWriter`, with the
--                        types of packages/core/src/feedback.ts
--   Server/Webhook       packages/server/src/handlers/webhook.ts: `handleWebhook`; its children hold
--                        the payloads (Bodies), the collaborators and the state (Deps), the shared
--                        helpers (Shared) and the handlers (Events, Comments, Pushes), and the proofs
--   Server/ParseCommand  packages/server/src/utils/parse-command.ts: the commands in comments
--   Server/Authz         packages/server/src/utils/feedback-authz.ts: `checkGithubFeedbackAuthz`
--   Server/Idempotency   packages/server/src/middleware/idempotency.ts
--   Server/Codecommit    packages/server/src/handlers/codecommit-webhook.ts:
--                        `handleCodecommitWebhook`, with packages/platform-codecommit/src/authz.ts
--   Server/Sns           packages/server/src/middleware/verify-sns-signature.ts
--   Server/Worker        packages/server/src/worker.ts: `shouldDebounce` and the cleanup ticks
--   Db/ReviewState       packages/db/src/review-state.ts: the mirror, `loadReviewState`
--   Db/Conversation      packages/db/src/conversation-state.ts: `incrementConversationTurn`
--   Db/AuditLog          packages/db/src/audit-log.ts, hmac-chain.ts, audit-retention.ts
--   Config/Presets       packages/config/src/preset-loader.ts: `deepMerge`, `resolveExtendsPresets`
--   Config/Org           packages/config/src/org-config.ts and schema.ts: `mergeOrgIntoRepo`,
--                        `loadConfigWithOrgFallback`
--   Llm/Retry            packages/llm/src/retry.ts: `withRetry` with the policy of model calls
--   Action/Payload       packages/action/src/run.ts and packages/cli/src/commands/review.ts: the
--                        diff text
--
-- How the program is modelled:
--   A string is the list of its UTF-16 code units. An amount of money is a natural number of a
--   fixed small unit, so that the ratios 0.8 and 1.5 are exact. A function that throws returns a
--   result; the review itself is a function of a state (the accumulated cost, the tool-call counter
--   and the log of calls), which keeps what was written before a throw.
--   The model, the schema, the secret scanner, the fingerprint hash, the ledger and the tables are
--   parameters: a record of the answers that they give. The database of the webhook handler is a
--   parameter too, with the queries that the handler makes; what theorems ask of it is a record of
--   laws (Webhook/Pausing, Webhook/Lifecycle), which two tables in memory meet (Webhook/Tests).
--   The loop of `withRetry` is recursion on the attempts that are left, which start at the cap less
--   one, so it always ends with a result. The policy of the model calls uses a cap of six, which its
--   limits never let it reach. A directory is a finite tree. All other loops are recursion on a list.
--
-- What is not modelled: the prompt of the agent but for the diff at its end, the built-in deny patterns of its tools, the loader
-- of a configuration text and its overrides by the environment, the vendor libraries, the timers of
-- the worker and the storage of the server, the other tables and the dashboard. A glob that spells out
-- one of the two marker texts of the compiler is left out. Of the database only the queries that are
-- named are modelled, each as one step; concurrent transactions are not.
pub mod Action
pub mod Common
pub mod Config
pub mod Core
pub mod Db
pub mod Llm
pub mod Runner
pub mod Server
