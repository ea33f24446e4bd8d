-- ===== src/Libvirt.antt =====
-- src/libvirt_backend.c: the parts of the libvirt backend that compute something themselves.
pub mod Xml
pub mod Disks
pub mod Listing
pub mod Orphans
pub mod Session
pub mod Changes
pub mod Nvram
pub mod Lock
pub mod Errors
pub mod Folders
pub mod Guest
pub mod Table
