-- ===== src/Lib.antt =====
-- Pooli: the action gateway, by which an agent proposes a message to a buyer and a human approves
-- it, and the logic of the web app's checkout and approval.
--
-- The parts and how they interact. An agent calls the tools of the MCP server, or the commerce API
-- calls the service route; both go through the registry, which validates the draft and stores a
-- proposal with the hash of a link code. The code is delivered to the merchant by another channel.
-- The merchant gives it on the confirmation page, and the routes behind the page, under a limit of
-- attempts, confirm and then execute the proposal. The pure state machine decides which transitions
-- are legal; the store's compare-and-swap decides which of two overlapping calls wins. The agent
-- gets its tokens from an authorization server in the same process, and the process keeps an audit
-- log, apart from the outbox that stands in for the merchant's phone. The web app shows the payment
-- of an order, polls for its status, chooses wallets and lets a merchant approve.
--
-- Base: Boolean tests on native numbers, lists, strings as lists of UTF-16 code units (trim,
-- startsWith, includes, join), decimals, and JavaScript's Map as an association list.
-- Domain, from apps/action-gateway/src/domain: Types (types.ts); Canonical (JSON.stringify of an
--   array of strings and Buffer.from of hexadecimal text, as state-machine.ts uses them); Machine
--   (state-machine.ts: digestPayload is digest_payload, expireIfDue is expire_if_due, and so on);
--   Validation (validation.ts, its regular expressions as recognisers; Lint and Sanitize are its
--   parts); Store (store.ts); Registry (registry.ts). Store/Table is what the store is to be: one
--   table with two unique columns, with which Store/Refinement compares the two maps.
--   Registry/Commits names the half of an operation behind its read, and Registry/Interleaving is
--   the relation of steps of calls that overlap at their awaits. Machine/Tamper compares the digest
--   that was seen with the payload that was proposed. Platform holds what the platform
--   gives: case mappings and SHA-256, with what is relied on.
-- Http, from apps/action-gateway/src/http: Limiter and Confirmation (confirmation-api.ts;
--   `attempt` is what its two confirmation routes share), Page (confirmation-page.ts), Internal
--   (internal-api.ts).
-- Agent, from apps/action-gateway/src: Redact (observability/redact.ts), Snapshot
--   (agent/snapshot.ts), Tools (mcp/server.ts; Tools/Grounds and
--   Tools/Drafts say what its proposing tool stores).
-- OAuth, from apps/action-gateway/oauth.mjs: the parent has baseUrl, the state, /register and
--   /authorize; Token has /token, Bearer has requireToken, Metadata the discovery documents,
--   Requests has sequences of requests. Redeeming says when a code is exchanged, SingleUse counts
--   exchanges (Counting has its rule, SpentCodes and SpentTokens the two cases), Registered has
--   the invariant of the maps.
-- Server, from apps/action-gateway/server.mjs: the parent has record, deliverOutOfBand,
--   deliverLinkCode and notifyPooliDraftReady; Mcp has the agent's endpoint, which composes
--   Bearer, Tools and the delivery; Service has the mounted service route, Device the routes of
--   the simulated phone.
-- Web, from apps/web/src: Status (lib/payment-handoff/exceptions.ts, lib/paymentUiState.ts and
--   the sets of lib/paymentPoll.ts), Poll (lib/paymentPoll.ts), Handoff
--   (lib/payment-handoff/registry.ts and types.ts), Wallet (Amount, Session with Evm, and Launch
--   are lib/payment-handoff/amount.ts, evm.ts, and launch.ts with tron.ts; Launch/Payment says what
--   a transaction has to pay), Prefs (prefs.ts,
--   env.ts and copy.ts there), Checkout (the handlers of components/checkout/CheckoutClient.tsx),
--   Usdt (lib/usdt.ts), Toman (lib/toman.ts), Proposals (lib/order-proposals.ts), Phone
--   (lib/phone.ts), Approval (lib/action-gateway.ts and
--   components/orders/MessageProposalSheet.tsx).
-- Examples applies the theorems to concrete inputs; Examples/Signer is a signing library that has
--   what is relied on.
--
-- State is passed explicitly: a store, the limiters, the maps of the authorization server, the
-- sinks of the process, a poller, a checkout. Each reading of a clock, each new id and each new
-- code is an argument. Errors are values of the sum Result. Times and amounts are natural numbers,
-- as they are non-negative and below 2^53 in the program, or of its type bigint. Recursion is
-- structural; the digits of n are made on fuel n + 1, and Base/Decimal shows that they denote n, as
-- Web/Wallet/Amount/Calldata does for hexadecimal digits.
--
-- Not modelled: Express and the MCP framework, which parse requests and check schemas; the network;
-- the React pages; the files that the authorization server keeps its state in and its log lines;
-- small libraries of the web app; message drafting by a model; and the Go services.
pub mod Base
pub mod Domain
pub mod Http
pub mod Agent
pub mod OAuth
pub mod Server
pub mod Web
pub mod Examples
