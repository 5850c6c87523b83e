-- ===== src/Lookup/Caches.antt =====
-- lookup-service/service/caches: a cluster holds portals, a portal environments and an environment
-- sessions, each in a dict by name. The objects also point back to their owner; here the owner is
-- the record around them. A cluster's kubeconfig is left out: it serves only to connect to it.
pub mod Sessions
pub mod Environments
pub mod Portals
pub mod Clusters
pub mod Clients
pub mod Capacity
