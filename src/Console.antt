-- ===== src/Console.antt =====
-- securepath/console: the line that is being edited.
pub mod InputHandler
