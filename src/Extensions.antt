-- ===== src/Extensions.antt =====
-- The extensions: the arguments of a program to execute, and the colour mode.
pub mod Exec
pub mod Color
pub mod Expander
pub mod Expr
