-- ===== src/Tests.antt =====
-- Tests of the definitions on concrete inputs, and the theorems at such inputs.
mod Util
mod Snapshot
mod DirtyState
mod Config
mod Libvirt
mod Guest
mod Server
mod Routes
mod Utm
mod Start
mod Html
