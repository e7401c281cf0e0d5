-- ===== src/Lzw.antt =====
-- src/lzw.c and src/unlzw.c: the LZW compression of DUKE NUKEM 3D demos, in the build without
-- SUM_TICS and PRINTCODES. `malloc` succeeds. The static variables of `putcode` are a state that the
-- calls pass on; the tables that the C code keeps in arrays are functions of the index. `unsigned`
-- has 32 bits.
pub mod Putcode
pub mod Compress
pub mod Decompress
