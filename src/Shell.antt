-- ===== src/Shell.antt =====
-- kernel/shell/shell.c, the shell on the framebuffer. A `char` array that holds a C string is the
-- list of its characters before the final zero, except the editor's buffer, which is the array.
pub mod Keys
pub mod Editor
pub mod Session
pub mod Strings
pub mod Files
pub mod Create
pub mod Commands
pub mod Execute
pub mod State
pub mod Keeps
pub mod Grows
pub mod Runs
pub mod Start
pub mod Answers
pub mod Edited
pub mod Input
pub mod Buffer
pub mod Edits
pub mod Lines
pub mod Moves
pub mod Kept
pub mod Safe
mod EditorTests
mod Tests
