-- ===== src/Json.antt =====
-- JSON values as the server keeps them: the fields of a submission, a mapping, a template's data.
-- A number is the text that `String(n)` gives. A value that is `undefined` is `none`.
pub mod Values
pub mod Print
pub mod Read
pub mod Assign
