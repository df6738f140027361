-- ===== src/Upload/Tests.antt =====
-- Runs of the upload's parts on small trees.
mod Trees
mod Staging
mod Audits
mod Bytes
mod Articles
