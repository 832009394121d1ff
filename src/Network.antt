-- ===== src/Network.antt =====
-- src/network.rs: the bridge, the addresses, the published ports and the named networks.
pub mod Command
pub mod Outputs
pub mod Bridge
pub mod Addresses
pub mod Pool
pub mod Veth
pub mod Ports
pub mod Rules
pub mod Named
pub mod Dns
pub mod Lifecycle
pub mod Registry
pub mod Spared
pub mod Members
pub mod Flush
pub mod Flushing
mod Tests
mod FlushTests
