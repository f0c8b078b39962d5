-- ===== src/Database.antt =====
-- The tables of src/database.rs, and its functions: each SQL statement as a function on the rows.
pub mod Tables
pub mod Laws
