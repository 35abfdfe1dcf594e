-- ===== src/Machine.antt =====
-- The two frozen transition tables and the pure functions over them: tasks
-- (server/src/types/index.ts, services/taskStateMachine.ts) and transactions
-- (types/transaction.ts, services/transactionStateMachine.ts).
pub mod Task
pub mod Transaction
pub mod TaskPaths
pub mod TransactionPaths
