-- ===== src/Stream.antt =====
-- pkg/engine/stream.go: from one line of the input to the parser of a stream (`feedPhysical`, `feedRaw`,
-- `feedFolded`, `feedSelected`, `finish`) and what a stream holds back on the way (`hold`). Each stage
-- hands a line on to the next, which is an argument, and keeps its fields of `streamer` in a record; the
-- parser at the end is the last of these arguments.
pub mod Flow
pub mod Stages
pub mod Whole
pub mod Reading
pub mod Counting
pub mod Charging
pub mod Balance
pub mod Grouped
pub mod Folded
pub mod Prepared
pub mod Released
pub mod Left
pub mod Counted
pub mod Selected
pub mod Picked
pub mod Agree
pub mod Tracks
pub mod Tracking
pub mod Choosing
pub mod Held
