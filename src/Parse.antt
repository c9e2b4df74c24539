-- ===== src/Parse.antt =====
-- set.go: `RawParse`. Mode holds its flags, Words the loop that deals out arguments, Options the long
-- and short options, Loop the whole.
pub mod Mode
pub mod Words
pub mod Options
pub mod Loop
pub mod Terminates
pub mod Keeps
pub mod Faithful
pub mod Safe
pub mod Long
pub mod ArgsOnly
