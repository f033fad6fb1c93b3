-- ===== src/Sql.antt =====
-- stores/sqlalchemy_core.py and stores/sqlalchemy_store.py: the stores that read Better Auth's tables.
-- SQLAlchemy, its engines and its drivers are parameters.
pub mod Plan
pub mod Rows
pub mod Store
