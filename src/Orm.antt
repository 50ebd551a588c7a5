-- ===== src/Orm.antt =====
-- sonnet-orm: the clauses of a statement, the statements of a session, and transactions.
pub mod Clause
pub mod Session
pub mod Transaction
