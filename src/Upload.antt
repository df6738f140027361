-- ===== src/Upload.antt =====
-- services/upload_*.go and its neighbours: what is uploaded, and in which form.
pub mod Content
pub mod Stage
pub mod Manifest
pub mod Blocklist
pub mod Resume
pub mod Crc
pub mod Article
pub mod Yenc
pub mod Usenet
pub mod Par2
pub mod Newsgroups
mod Tests
