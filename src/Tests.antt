-- ===== src/Tests.antt =====
-- Runs on concrete data, and the theorems at inputs that meet their hypotheses.
mod Panel
mod Disk
mod Einklib
mod Service
mod Auth
mod Cli
mod Urls
mod Commands
mod Certificates
mod Network
mod Application
mod Recovery
mod Link
mod Joined
mod Calls
mod Overlap
