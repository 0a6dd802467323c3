-- ===== src/Table.antt =====
-- A database table as the list of its rows, and the queries that the repositories build with
-- SQLAlchemy: `filter(...).first()`, `order_by`, and `update(...).where(...).values(...)`.
pub mod Rows
pub mod Order
pub mod Keys
