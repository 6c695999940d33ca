-- ===== src/Einklib.antt =====
-- Package einklib (einklib/): the driver of the panel.
pub mod Waveform
pub mod Geometry
pub mod Bitmap
pub mod Device
pub mod Interface
pub mod Display
