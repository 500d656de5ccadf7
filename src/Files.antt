-- ===== src/Files.antt =====
-- internal/files: confined access to markdown files and directory listings.
pub mod Error
pub mod Markdown
pub mod Op
pub mod Resolver
pub mod Manager
pub mod Lister
