-- ===== src/Imaging.antt =====
-- go/internal/imaging/imaging.go
pub mod Exif
pub mod Image
pub mod Orient
pub mod Fit
pub mod Bounds
pub mod Prepare
