-- ===== src/Tests.antt =====
-- The theorems at concrete inputs, and the data for them.
pub mod Data
mod Merging
mod Detecting
mod Placing
mod Storing
mod Commanding
mod Transferring
mod Clustering
mod Joining
mod Evolving
mod Calling
