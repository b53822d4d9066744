-- ===== src/Tar.antt =====
-- kernel/src/tar.rs: a tar archive as the file system.
pub mod Octal
pub mod OctalLaws
pub mod Header
pub mod Ustar
pub mod HeaderLaws
pub mod Files
pub mod Archive
pub mod RoundTrip
pub mod Overrun
pub mod Fs
pub mod Sectors
pub mod Persist
