-- ===== src/Db.antt =====
-- The database as the credit, check-in, redeem and recharge code sees it: tables of rows, the
-- errors that the code returns, statements that may fail, and transactions.
pub mod Table
pub mod Keys
pub mod Rows
pub mod Action
pub mod Call
