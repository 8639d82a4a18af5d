-- ===== src/Block.antt =====
-- A block of memory as the function from an offset to what is stored there: runs of cells, and
-- little-endian numbers of several bytes. Both memories, the stack of a core and the page copies
-- of merry/merry_dmemory.c are blocks.
pub mod Endian
pub mod Runs
