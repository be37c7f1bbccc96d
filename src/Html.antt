-- ===== src/Html.antt =====
-- The browser's document code: html/src.
pub mod Token
pub mod Dom
pub mod Build
pub mod Parse
pub mod Css
mod Tests
