-- ===== src/Einkgrpc.antt =====
-- Package einkgrpc (einkgrpc/): the gRPC server in front of the panel.
pub mod Modes
pub mod DisplayService
pub mod TokenAuth
pub mod Host
pub mod CertManager
pub mod Net
pub mod Mdns
pub mod Credentials
pub mod Server
pub mod Backend
