-- ===== src/Forwarding.antt =====
-- src/pyntara/forwarding_ports.py and port_forwarding.py: the ports of a machine, the tunnel that
-- takes the first of them that a server accepts, and the loop that keeps it.
pub mod Ports
pub mod Integers
mod Chain
pub mod Tunnel
mod Accepted
mod Recorded
mod Loaded
mod Restored
mod Samples
