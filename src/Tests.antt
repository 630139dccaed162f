-- ===== src/Tests.antt =====
-- The theorems at concrete inputs, over concrete instances of the libraries that the code uses.
mod Backend
mod Controller
mod Events
mod Eviction
mod Instances
mod Memory
mod Objects
mod Mixed
mod Policies
mod Sessions
mod Paged
