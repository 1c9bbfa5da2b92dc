-- ===== src/Devices.antt =====
-- kernel/src/device, userspace, pci/nvme.c and vfs: devices, drives and what is on them.
pub mod Registry
pub mod Drive
pub mod Nvme
pub mod Partition
mod Tests
