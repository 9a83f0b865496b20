-- ===== src/Positions.antt =====
-- application/portfolio/refresh_positions.py and the tables that it writes. An exception rolls the
-- session back, so a refresh that raises has no tables. Numbers keep their values in the columns,
-- which have eight places for a quantity and four for an amount. The texts of drift details are
-- values with the same parts.
pub mod Tables
pub mod Refresh
pub mod Rows
pub mod Mirror
pub mod Drift
pub mod Events
mod Tests
