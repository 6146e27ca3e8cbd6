-- ===== src/Js.antt =====
-- What the tracker uses of JavaScript's own library: texts, decimals, dictionaries.
pub mod Text
pub mod Decimal
pub mod Dict
pub mod Attempt
pub mod Uri
pub mod Number
pub mod Value
