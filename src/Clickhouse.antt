-- ===== src/Clickhouse.antt =====
-- clickhouse/: what a query's bindings and a client's options become for the driver.
pub mod Bindings
pub mod Settings
mod Tests
