-- ===== src/Proxy.antt =====
-- dbus-proxy/xdg-app-proxy.c: the filtering D-Bus proxy.
pub mod Policy
pub mod Wire
pub mod Header
pub mod Message
pub mod State
pub mod Names
pub mod Replies
pub mod Handler
pub mod NameOps
pub mod Fds
pub mod FromClient
pub mod FromBus
pub mod Auth
pub mod Input
pub mod Output
pub mod CommandLine
mod Tests
