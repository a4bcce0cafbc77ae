-- ===== src/Websocket.antt =====
-- cpp-source/websocket.hpp: the frames of a websocket and its handshake.
pub mod Frame
pub mod Masking
pub mod Session
