-- ===== src/Flags.antt =====
-- ext/tlflag/flag.go: the writers and readers that the command line names, and the sizes in it.
pub mod Sizes
pub mod Options
pub mod Paths
pub mod Writing
pub mod Reading
