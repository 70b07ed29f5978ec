-- ===== src/Worker.antt =====
-- Worker.cpp: what a thread does with the connections that it takes from the stack.
pub mod Process
pub mod Serve
pub mod Replies
pub mod Requests
pub mod Answers
pub mod Kept
pub mod Termination
pub mod Stream
pub mod Descriptors
pub mod Handler
