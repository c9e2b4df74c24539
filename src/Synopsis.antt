-- ===== src/Synopsis.antt =====
-- internal/synopsis: the usage texts with placeholders of placeholder.go, and the names of flags of
-- synopsis.go.
pub mod Usage
pub mod Names
