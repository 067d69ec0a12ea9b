-- ===== src/Io.antt =====
-- Byte streams: capnproto/c++/src/kj/io.c++ and io.h.
pub mod Input
pub mod Output
