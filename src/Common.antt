-- ===== src/Common.antt =====
-- lib/common.cpp: the shadowsocks address header, the exclusive or of buffers, the banned addresses.
pub mod Xor
pub mod Header
pub mod Tests
pub mod Ban
