-- ===== src/Lib.antt =====
-- Coalition: agents pool USDC commitments towards a shared resource. The TypeScript SDK (sdk/src), the
-- subgraph mappings (subgraph/src) and the server routes of the app (app/app/api, app/lib) are
-- modelled; the pool contract, the identity registry, Circle, the ENS resolver, the subgraph's
-- endpoint and the orchestrator are what these call, and stand as parameters of the definitions.
--
-- The parts, and the files that model them:
-- Base: Boolean tests, lists, signed integers, results, texts and decimal numerals that all share.
--   A text is the list of its UTF-16 code units; `toLowerCase` is modelled on the ASCII letters, which
--   are the letters of the addresses that it is applied to.
-- Json: parsed JSON, as the `unknown` of `response.json()`, and the answers of `fetch`. Of a number
--   only its integer value is kept.
-- Usdc: sdk/src/chains/usdc.ts, `toAtomicUsdc` and `fromAtomicUsdc`.
-- Graph: sdk/src/graph, the client of the subgraph, with a function for each of its queries.
-- Subgraph: subgraph/src/mapping.ts, the handlers that write the entities which Graph reads. The store
--   is a record of tables by id (Subgraph.Tables); `index` runs a list of events.
-- Pool: sdk/src/pool/client.ts, the reads and writes of a pool contract.
-- Discovery: sdk/src/discovery/client.ts, the merge of the candidates and their enrichment with what
--   Graph and Pool read. The ENS probe of `discoverPools`, whose outcome the code discards, is left out.
-- Blocks: the ranges of blocks in which Identity and Dashboard scan logs.
-- Circle: app/lib/circle-fund.ts, the credentials, the wallet lookup and `executeContractAndWait`
--   (Circle.Polls, Circle.Success). Its poll loop runs on fuel 241: each turn takes half a second at
--   least, and the loop is left after 120 seconds.
-- Identity: sdk/src/identity/client.ts, registration, resolution and the scan of the registry's logs.
--   The loop of `findAgentsByOwner` runs on fuel: `latest + 2`, one more than the blocks there are,
--   since each pass takes at least one block.
-- Ens: sdk/src/ens/client.ts and register-verify.ts, names and their records, the writes on resolvers and
--   registrars (Ens.Verify), the cache of labels (Ens.Cache), and the way from a name to its agents
--   (Ens.Agents), which goes on with Identity. What viem computes of a name is a parameter.
-- Reputation: sdk/src/reputation/client.ts, the two reads of the reputation registry.
-- Demo: sdk/src/demo/client.ts, the resolution of the seeds by Ens, Identity and Reputation
--   (Demo.Seeds), and the scan of the feedback for a dropout (Demo.Dropouts).
-- Market: sdk/src/market/quotes.ts, the quote of a seller and the cost of a request.
-- Resale: app/lib/resale.ts, the fill plan and its payouts, and app/lib/resale-decision.ts
--   (Resale.Decision), whether the autonomous buyer buys. Resale.Execute: app/lib/resale-execute.ts, the
--   purchase, as the list of its calls and its result. An account or an amount that viem cannot encode
--   throws between the approval and the payouts; viem's test of an address is a parameter, and the
--   range of a `uint256` is written out. Resale.Outcomes states what each way through the purchase asks
--   of its environment and of the answers, and Discovery.Reads what a candidate is listed with.
--   Resale.AutoRun:
--   app/app/api/agents/resale-run/route.ts, the autonomous run, which puts Graph, the decision, the plan
--   and the purchase together. Resale.BuyRoute: app/app/api/resale/buy/route.ts, the purchase of a plan
--   that a request carries.
-- Dashboard: app/lib/pool-state.ts, the reads of the pool and its rounds with their time limits, retries
--   and fallbacks (Dashboard.Attempts), the history and the roster (Dashboard.History), and the activity
--   (Dashboard.Activity). How each attempt of a read ends is a parameter; a promise settles within its
--   limit or hangs past it. The retries are structural on the attempts left, 3 at first, and the scan of
--   the activity runs on fuel `latest + 2`, one more than the blocks there are.
-- Fund: app/app/api/agents/fund/route.ts. Fund.Opening takes the round from Dashboard, Fund.Attest checks
--   each funder against its ENS name, Fund plans the jobs, and Fund.Execute approves and commits them
--   and reports. There the calls of Circle are a parameter by job number and call, so that the jobs of
--   the third phase can finish in any order; Fund.OnChain puts Circle and the retried allocation of a
--   slice (Fund.Slices) in its place. The loop of `allocateWithRetry` runs on fuel 31: it pauses 0.4
--   seconds, and ends with the first answer after 12 seconds. Fund.Guard is the flag against a second run,
--   as a relation of steps.
-- Run: app/app/api/agents/run/route.ts, the dry run, on Dashboard for the rounds and Demo for the seeds.
--   It shares the split of the remainder with Fund.
--
-- A rejected promise or a thrown error is an `err` or a `none`. Texts of errors and reasons are
-- constructors that carry what the source interpolates. Logging, the limits of
-- `AbortSignal.timeout` and the pauses between log chunks are left out; the rendering of the app, the
-- routes that are not named above and the orchestrator are not modelled.
pub mod Base
pub mod Usdc
pub mod Json
pub mod Graph
pub mod Subgraph
pub mod Pool
pub mod Discovery
pub mod Blocks
pub mod Circle
pub mod Identity
pub mod Ens
pub mod Reputation
pub mod Demo
pub mod Run
pub mod Fund
pub mod Dashboard
pub mod Resale
pub mod Market
