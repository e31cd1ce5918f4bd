-- ===== src/Lsml.antt =====
-- lsml/hash.py: the content address of a bundle. A text that the code takes apart is the list of its
-- code points.
pub mod Chars
pub mod Number
pub mod Canonical
