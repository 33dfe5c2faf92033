-- ===== src/Database.antt =====
-- zrdb.cpp and zrdb.h: the tables `config` and `mywallet`, and what opening the database writes to them. The tables
-- of accounts, orders and contracts stand with the parts that use them.
pub mod Config
pub mod Wallets
mod Tests
