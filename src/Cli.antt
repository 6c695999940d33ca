-- ===== src/Cli.antt =====
-- Command tableaux-cli (tableaux-cli/).
pub mod Waveform
pub mod Flags
pub mod Upload
pub mod Remote
pub mod Texts
pub mod Commands
pub mod Dispatch
