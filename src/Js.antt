-- ===== src/Js.antt =====
-- What the client uses of JavaScript itself: exceptions, `Array.prototype.sort`, `Map`, `Set` and
-- plain objects.
pub mod Outcome
pub mod Eq
pub mod Sort
pub mod KeyMap
pub mod Object
pub mod Number
pub mod Value
