-- ===== src/Tests.antt =====
-- Witnesses of the theorems at concrete inputs, and runs of the definitions.
mod Texts
mod Packing
mod Streams
mod Wire
mod Building
mod Objects
