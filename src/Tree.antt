-- ===== src/Tree.antt =====
-- pkg/engine/tree.go: type: tree. The indentation of a line says at which depth its node stands. A line's
-- text is its bytes; what a node reads from its line is an argument (a pattern or a key/value entry).
pub mod Depth
pub mod Nodes
pub mod Preorder
