-- ===== src/Mesh.antt =====
-- services/sender, services/mesh_relay and services/bridge: how a packet comes to the queue.
pub mod Urls
pub mod Replies
pub mod Relay
pub mod Bridge
pub mod Sender
pub mod Wiring
