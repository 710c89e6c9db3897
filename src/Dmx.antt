-- ===== src/Dmx.antt =====
-- DMX: the DMX output device and its frame buffer.
pub mod Device
pub mod Buffer
mod Tests
