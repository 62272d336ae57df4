-- ===== src/Pyramid.antt =====
-- The capital pyramid of auto_trader_exposure_expansion: at the stop of a simulation, the symbols
-- that are in profit get the leveraged cash for live trading, and the losing ones leave the saved
-- trading configuration.
pub mod Ranks
pub mod Document
pub mod Merge
pub mod Simulator
pub mod Lookup
pub mod Cash
pub mod Unrealized
pub mod Entries
pub mod Apply
pub mod Handoff
pub mod Rows
pub mod Stop
