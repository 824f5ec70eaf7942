-- ===== src/Js.antt =====
-- What the source uses of JavaScript itself: strings, numbers, `Set` and `Map`.
pub mod Text
pub mod Set
pub mod Map
pub mod Number
pub mod Value
pub mod Host
pub mod Double
