-- ===== src/Duration.antt =====
-- pkg/convert/convert.go, `Duration`: a printed length of time in seconds. A text is its bytes.
pub mod Number
pub mod Clock
pub mod Units
pub mod Whole
pub mod Parts
pub mod Reading
pub mod Agree
