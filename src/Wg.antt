-- ===== src/Wg.antt =====
-- internal/wg/manager.go: the manager of the WireGuard interface. `Conf` is the saved wg0.conf and
-- `Manager` the maps and the operations on peers, and `Mesh` those on mesh addresses.
pub mod Conf
pub mod Manager
pub mod Mesh
pub mod Samples
