-- ===== src/Abi.antt =====
-- The C interface: the exported functions of plugin/main.go, writeResponse, and callHost with the C
-- helpers of plugin/host.go, over the memory that cgo and the host allocate.
pub mod Memory
pub mod Callback
pub mod Exports
