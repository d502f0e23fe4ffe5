-- ===== src/Uio.antt =====
-- uio_ivshmem/uio_ivshmem.c: the PCI driver that gives a shared-memory device to user programs.
pub mod Irq
pub mod Balanced
pub mod Probe
pub mod Cleanup
mod Tests
