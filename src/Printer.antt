-- ===== src/Printer.antt =====
-- internal/printer: printers, drivers and what the drivers decode.
pub mod Types
pub mod Raster
pub mod Multi
pub mod Niimbot
