-- ===== src/Tests.antt =====
-- The theorems applied to concrete inputs.
mod Readers
mod Cores
mod Lists
mod Objects
mod Traffic
mod Profiles
mod Threads
mod Mapping
mod Clients
mod Dispatch
mod ArrayPlane
mod Rules
mod Bulk
mod Pipelines
mod Requests
mod Links
