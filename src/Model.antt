-- ===== src/Model.antt =====
-- node.go: the vocabulary, the nodes and the edges of the graph. Every name of the children is
-- passed on.
mod Vocabulary
mod Records
mod Tables
unfoldable pub use Vocabulary.*
unfoldable pub use Records.*
unfoldable pub use Tables.*
