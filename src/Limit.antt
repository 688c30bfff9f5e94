-- ===== src/Limit.antt =====
-- src/pacer_limit.c: the configuration of the limiter, from the file to what a frame reads.
-- `Config` holds the data, `Text` the C library's work on bytes, `Executable` the names by which a
-- rule can match the process, `Values` the values of single keys, `Parser` the file format, `File`
-- the checked read of the file, and `Poll` the published state.
pub mod Config
pub mod Text
pub mod Values
pub mod Executable
pub mod Parser
pub mod File
pub mod Poll
mod Fixtures
