-- ===== src/Lib.antt =====
-- The server of OTDMS (server/src): a simulated currency, DMC, that captains hold as capital, give
-- up for the payments that a party's customers make in cash, and get back as commission. This
-- library models the money of pay-ins and pay-outs and what it stands on, and proves it correct.
--
-- The parts, and how they interact:
--   * Prelude: the names of the libraries, tests, lists, texts, integers and collections by id.
--   * Errors: `AppError` (server/src/utils/AppError.ts) as a value, `Result` for code that throws.
--   * Money: server/src/utils/money.ts: `percentOfPaise`, `sumPaise`, `dmcPaiseToUsdtMicros`.
--     Money.Double has the doubles that they are computed in.
--   * Commission: server/src/services/commission.service.ts: the rates, the split of a charge,
--     `repriceCaptainShare`.
--   * Machine.Task, Machine.Transaction: the tables of server/src/types and the predicates of
--     services/taskStateMachine.ts and services/transactionStateMachine.ts.
--   * Store: the documents of server/src/models as records, the database as one record `Store`,
--     and `Action`, code that reads and writes it and may throw. What was written before an error
--     stays, unless `atomically` runs the body in a database transaction.
--   * Capacity: services/captainCapacity.service.ts and services/collateral.service.ts.
--   * Pool: services/platformAccount.service.ts. Balance: services/captainBalance.service.ts.
--   * Routing: the score and the sort of services/taskRouting.service.ts; Routing.Eligibility who may
--     be offered a pay-out, Routing.Offers the offers, Routing.Rating the rating and the badges of
--     services/captainRating.service.ts.
--   * Allocation: services/dmcAllocation.service.ts: the rows that a withdrawal is drawn from.
--   * Purchase: services/captainLimitPurchase.service.ts, on the captains and its own rows.
--   * Engine: services/transaction.service.ts. Engine has the claims, the settlement and the
--     decline, Engine.Create `createPayIn`, Engine.Assign `assignCaptain`, Engine.Endings `expire`,
--     `cancel`, `dispute`, `resolveDispute` and the sweep of services/transactionSweep.service.ts.
--     A settlement uses Pool and Balance, an assignment Routing, Capacity and Commission.
--   * Store.Tasks: the documents of a pay-out (server/src/models/Task.ts, Proof.ts, TaskOffer.ts,
--     Commission.ts); Store.Finding their conditional writes.
--   * Workflow: services/workflow.service.ts, the life of a pay-out. Workflow has `startTask` and
--     `submitProof`, Workflow.Completion `completeTask` and `rejectTask`, Workflow.Recovery
--     `reassignTask` and the recovery of an expired task, Workflow.Cancelling the cancellations,
--     Workflow.Overdue the sweeps and services/customerConfirmation.service.ts,
--     Workflow.Claiming and Workflow.Creation `claimTask` and `createTask` of
--     services/task.service.ts. A completion uses Pool, Balance and
--     Allocation, a claim Capacity and Commission, and most of them Routing. Workflow.Steps puts
--     the operations together.
--
-- A conditional write of the database (`findOneAndUpdate` with a filter) is one step that looks up
-- the document, tests the filter and writes. Operations of the engine read a transaction and later
-- claim a change of its state; between the two anything may have happened. The state read is
-- therefore an argument, `from`, of `settle_from`, `end_from` and `dispute_from`, and Engine.Steps
-- lets an operation run with any `from` and create with any answer of the look-up before it. A
-- step is a whole operation from its claim on: what another operation might do between two
-- database writes of one is not modelled, but for Engine.FailedHold, where an expiry runs between
-- the two database transactions of an assignment.
--
-- The operations of a pay-out use the document that they have read after their claim, so the whole
-- document is an argument of the definitions named `..._from`. Workflow.Steps asks of it that it
-- names a captain who is there, and that the task, while it is open, has the party, amount and
-- charge that were read (`WasRead`): it may have changed hands or state since.
--
-- Amounts are natural numbers of paise, which JavaScript's safe integers bound where the source
-- tests it. A party's balance is an integer, since nothing keeps it from going below zero. Where
-- the source computes percentages and USDT in doubles, the model does the same in doubles of 53 bits
-- (Money.Double); scores and ratings are computed in exact fractions. A percentage is a number of
-- millionths of a percent. Every recursion is structural: there is no fuel but
-- the 1100 doublings that the last place of a double may take, which is more than its exponents.
--
-- Not modelled: audit records, notifications, messages of errors, the codes of transactions (the
-- id stands for them), retries inside `withTransaction`, callbacks, receipts of proofs, the limit of 200 rows
-- of a sweep over tasks, payout disputes, the top-ups and
-- purchases of parties, withdrawals, registration, HTTP, and the client.
pub mod Prelude
pub mod Errors
pub mod Machine
pub mod Money
pub mod Commission
pub mod Store
pub mod Capacity
pub mod Routing
pub mod Pool
pub mod Balance
pub mod Allocation
pub mod Purchase
pub mod Workflow
pub mod Engine
pub mod Tests
