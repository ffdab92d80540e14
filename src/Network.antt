-- ===== src/Network.antt =====
-- Addresses and the policies on them: candidates, tunnels, records and what peers keep of each other.
pub mod Address
pub mod Candidate
pub mod Tunnel
