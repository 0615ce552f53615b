-- ===== src/Devices/Floppy.antt =====
-- devices/floppy/FloppyDiskImage.cpp: disk images and the bytes of their tracks.
pub mod Gcr
pub mod Geometry
pub mod Mfm
pub mod Disk
pub mod Store
pub mod Write
pub mod Drive
