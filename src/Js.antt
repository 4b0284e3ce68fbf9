-- ===== src/Js.antt =====
-- What the language gives to the program: the values of `JSON.parse`, `JSON.stringify`, and calls
-- that return a value or throw.
pub mod Json
pub mod Stringify
pub mod ParseInt
pub mod Exec
pub mod Ends
pub mod Host
