-- ===== src/Virtio.antt =====
-- kernel/src/virtio.rs: the driver of the block device.
pub mod Reg
pub mod Device
pub mod Driver
pub mod Protocol
pub mod Serves
pub mod Init
