-- ===== src/Reader/Release.antt =====
-- `merry_destroy_reader` of merry/merry_nreader.c, by the pointers of the reader.
use merry_v.Common.{Bool, ◌&&◌, ◌==◌, ltb, if◌then◌else◌}
use merry_v.Core.Lifecycle.{Pointer, null, owned, releases}
use merry_v.Reader.{Reader}

-- The pointers that `merry_destroy_reader` releases, but for the structure itself.
pub record Parts : Type 0 where
  pub eat : Pointer
  pub sections : Pointer
  pub st_data : Pointer
  pub syms : Pointer

-- What a file that was read leaves of the pointers: `merry_init_reader` sets only `syms`, so a table of
-- sections or of strings that the file does not have is what malloc left (`eat` and `syms` of `left`
-- are not used). A section of symbols that is read has made a block.
unfoldable pub read_parts : Parts → Reader → Parts
read_parts left r = record {
  eat = owned;
  sections = if r.sst_len == 0 then left.sections else owned;
  st_data = if r.ste_flag && ltb 0 r.st_len then owned else left.st_data;
  syms = if r.sym_count == 0 then null else owned;
}

-- `merry_destroy_reader`: whether it only releases what there is.
unfoldable pub destroy : Parts → Bool
unfolding releases
destroy p = releases p.eat && releases p.sections && releases p.st_data && releases p.syms
