-- ===== src/Zram.antt =====
-- configure_zram.py: the devices of compressed swap, brought to a size that is computed from the
-- memory and the number of cores. The lines that the program prints on the way are left out.
pub mod Machine
pub mod Reading
pub mod Steps
pub mod Run
pub mod Verified
pub mod Clean
pub mod Target
mod Samples
