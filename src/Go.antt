-- ===== src/Go.antt =====
-- What the operator uses of Go itself: strings, decimal numbers and fixed-width integers.
pub mod Text
pub mod Number
pub mod Word
pub mod Map
pub mod Sort
