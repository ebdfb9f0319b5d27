-- ===== src/Tests.antt =====
-- Tests of the definitions, and the theorems at concrete inputs.
mod Cluster
mod Habitats
mod Workloads
mod Peers
mod Events
mod Conforms
mod Setups
mod Processes
mod Starts
mod Copying
mod Clients
mod Responds
mod Listing
mod Queues
mod Systems
mod Clientsets
mod Factories
