-- ===== src/Recording.antt =====
-- proxy/internal/recording: the recordings of sessions on disk.
pub mod Files
pub mod Store
pub mod Lines
pub mod Agreement
pub mod Calls
pub mod Upload
pub mod Appending
pub mod Listing
pub mod Playlist
pub mod Api
pub mod ListingExamples
pub mod Examples
