-- ===== src/Xo.antt =====
-- The tic-tac-toe transaction family (examples/xo_go/src/sawtooth_xo).
pub mod Payload
pub mod Games
pub mod State
pub mod Board
pub mod Display
pub mod Handler
