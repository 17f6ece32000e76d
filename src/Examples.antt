-- ===== src/Examples.antt =====
-- The theorems at concrete inputs, and tests of the definitions on inputs that can be followed in the
-- source.
mod Objects
mod Texts
mod Engines
mod Streams
mod Trees
mod Tables
mod Durations
mod Keys
mod Schemas
mod Selections
mod Pointers
