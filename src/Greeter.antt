-- ===== src/Greeter.antt =====
-- The greeter's program, src/greeter: its side of the socket, its cards and window, and its state.
pub mod Client
pub mod Card
pub mod Layout
pub mod App
pub mod Widget
pub mod Window
pub mod Main
