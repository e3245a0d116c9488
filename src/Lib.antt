-- ===== src/Lib.antt =====
-- A model of the Relavoi backend, which lets two parties call and text each other through a proxy
-- number without seeing each other's number.
--
-- The parts and how they interact. A tenant creates a session for two phone numbers; the session
-- manager takes a proxy number from the pool, stores the session in Postgres and indexes it in
-- Redis. The provider reports a call to the proxy number; the router finds the session of the
-- number in which the caller takes part, and answers whom to dial; a text message is forwarded.
-- When a session ends, it has a grace period; when it expires, its number goes back to the pool,
-- rests, and is reaped; workers do both at intervals. The provider's webhooks are parsed, handled
-- once per event id, and kept as dead letters when their handling throws. What happens is published
-- on a bus; its consumers meter the usage of the tenants and deliver the events to their webhooks.
-- Guards read the token of a request to a route, and devices leave tokens for pushes.
-- Before all of these, the tier of a tenant limits its calls and sessions; beside them, a circuit
-- breaker keeps the health of the provider.
--
-- Which file models what:
--   Base           names and helpers that all share: tests, lists, Redis sets, key spaces
--   Store          the Redis keys and the table rows that the services share
--   Crypto         src/utils/crypto.ts
--   Cache          src/utils/cache.ts, the class TTLCache
--   Pool           src/services/number-pool.ts: Pool/Allocate has ALLOCATE_SCRIPT and `allocate`,
--                  Pool/Release RELEASE_SCRIPT, `release` and `reapCooldown`, Pool/Loading
--                  `loadPoolFromDb`
--   Session        src/services/session-manager.ts: Session/Create `createSession`, Session/End
--                  `endSession`, Session/Expire `expireSession`, Session/Swap `swapTarget` with
--                  SWAP_TARGET_SCRIPT
--   CallRouter     src/services/call-router.ts: CallRouter/Routing has `routeIncomingCall`
--   SmsRouter      src/services/sms-router.ts
--   Breaker        src/services/circuit-breaker.ts and the tick of
--                  src/workers/cpaas-health-check.ts
--   Tier           src/services/tier-enforcer.ts and src/api/middleware/tier-rate-limit.ts
--   AfricasTalking src/services/africastalking: webhook-parser.ts in VoiceParser, sms-parser.ts in
--                  SmsParser, response-builder.ts in ResponseBuilder
--   WebhookHandler src/services/webhook-handler.ts: WebhookHandler/Voice has `handleVoiceWebhook`,
--                  WebhookHandler/Sms `handleSmsWebhook`, WebhookHandler/Signature `verifySignature`
--   WebhookRoutes  src/api/routes/webhooks.ts: the two routes that the provider posts to
--   Auth           src/api/middleware/auth.ts and src/api/middleware/admin-auth.ts
--   TenantWebhook  src/services/tenant-webhook-delivery.ts
--   Billing        src/services/billing-manager.ts
--   DeviceTokens   src/services/device-token-manager.ts
--   EventBus       src/services/event-bus.ts
--   EventConsumers src/workers/event-consumers.ts
--   Workers        src/workers/session-expiry.ts and src/workers/pool-reaper.ts
--   Examples       inputs that the tests of several parts use
--
-- State and calls. Redis and Postgres are records of functions and lists, and a method is a
-- function from its arguments and the state to its result and the new state. A call that may throw
-- has a Boolean argument that says whether it does; what follows it then is what the source does,
-- with the effects before it kept; of the breaker, a call that throws is a step of its own, after the
-- number of its writes. Times, random values and draws of SRANDMEMBER are arguments. A
-- Lua script is one step, as Redis runs it; so is each method, so two requests are not interleaved.
-- Node's crypto is a parameter, with the laws that its documentation gives of AES-256-GCM.
--
-- Bounds. All loops are over lists or, in ALLOCATE_SCRIPT, over its eight attempts. The timers of the
-- deliveries to tenants are run on fuel; as much as their items have attempts left is enough. Times
-- are natural numbers of milliseconds. The stream of the bus keeps ten thousand entries; how many
-- more it drops is an argument.
--
-- The provider's texts: the operations of JavaScript's strings that the parsers use, JSON and HMAC
-- are parameters. A status event keeps a mark in the dedup cache, which is read back as a decision.
--
-- Not modelled: logs and metrics; reports (`getPoolStatus`, `getDetail`, `getUsageEvents`); the
-- listing of sessions; `verifyCall`, a read; the other HTTP routes and their validation, which call
-- the parts above; the timers of the workers; push, presence and the WebSocket server, which are
-- input and output.
mod Base
pub mod Breaker
pub mod Crypto
pub mod Cache
pub mod Store
pub mod Pool
pub mod Session
pub mod CallRouter
pub mod SmsRouter
pub mod Examples
pub mod TenantWebhook
pub mod WebhookRoutes
pub mod Workers
pub mod DeviceTokens
pub mod EventBus
pub mod EventConsumers
pub mod Billing
pub mod WebhookHandler
pub mod AfricasTalking
pub mod Auth
pub mod Tier
