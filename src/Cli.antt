-- ===== src/Cli.antt =====
-- cmd/ednsdiag/main.go: the arguments of the command. The children parse them and run the command.
pub mod Flags
pub mod Target
pub mod QueryArgs
pub mod CompareArgs
pub mod Run
