-- ===== src/Html/Css.antt =====
-- The CSS parser: html/src/css/css_parser.c and html/include/css/css.h.
pub mod Token
pub mod Rule
pub mod Parse
pub mod Machine
pub mod Print
pub mod RoundTrip
pub mod Value
mod Tests
