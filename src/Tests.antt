-- ===== src/Tests.antt =====
-- The theorems at concrete inputs, and runs of the definitions.
mod Health
mod Alarms
mod Rounds
mod Logins
mod Fleets
mod Tickets
mod Guesses
mod Bundles
mod Services
mod Options
mod Pages
mod Builds
mod Registers
