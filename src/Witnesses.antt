-- ===== src/Witnesses.antt =====
-- Concrete inputs at which the theorems' conditions hold.
mod Data
mod JsonValues
mod Messages
mod Compatibility
mod Modes
mod Executors
mod Missions
mod Flight
mod MissionFiles
mod Measurements
mod Actions
