-- ===== src/Examples.antt =====
-- The theorems at concrete inputs, and runs of the models.
mod Documents
mod Lists
mod Peers
mod Reconnects
mod Frames
mod Pools
mod Maps
mod Wire
mod Routes
mod Messages
mod Requests
mod Rounds
mod Addresses
mod Helpers
