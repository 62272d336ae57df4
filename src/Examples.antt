-- ===== src/Examples.antt =====
-- The theorems at concrete inputs, and tests of the definitions.
mod Session
mod Execution
mod Computer
mod Pyramid
mod Workers
mod Stops
mod Exits
mod Fills
mod Sending
mod Trading
mod Leaving
mod Evening
