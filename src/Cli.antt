-- ===== src/Cli.antt =====
-- app.go and utils.go: the command line application.
pub mod Dialogue
pub mod Startup
pub mod Init
pub mod Service
pub mod Agent
