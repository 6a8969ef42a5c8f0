-- ===== src/Cli.antt =====
-- The commands: py2fw/main.py and py2fw/cli.
pub mod Outcome
pub mod World
pub mod Pipeline
pub mod Commands
pub mod Releasing
