-- ===== src/Tests.antt =====
-- Runs of the model on small data, and the theorems applied to them.
mod Samples
mod Muxes
mod Servers
mod Fanouts
mod Batches
mod Configs
mod Breakers
mod Buckets
mod Processes
mod Phases
mod Codes
mod Pages
mod Routes
mod Keys
mod Tables
mod Updates
mod Requests
mod Probing
mod Flows
mod Totals
