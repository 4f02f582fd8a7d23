-- ===== src/Layout.antt =====
-- Memory layout: widths and alignments of src/Types.cpp, struct layout of src/Sema.cpp.
pub mod Width
pub mod Structs
pub mod Tests
