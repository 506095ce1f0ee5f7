-- ===== src/Converter.antt =====
-- The part `Compose → P2SER Converter` of ui/src/App.jsx.
pub mod Interpolate
pub mod EnvText
pub mod Convert
pub mod Highlight
pub mod Badge
pub mod Files
pub mod Session
pub mod Card
