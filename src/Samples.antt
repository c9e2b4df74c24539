-- ===== src/Samples.antt =====
-- Runs of the models on concrete inputs, and the theorems at inputs that meet their hypotheses.
pub mod Bindings
mod Parsing
mod Occurrences
mod Orders
mod Patterns
mod Pipelines
mod Routes
mod Expressions
mod Synopses
mod Contexts
mod Properties
mod Components
