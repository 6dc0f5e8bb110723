-- ===== src/Huffman.antt =====
-- src/ddb_huffman.c, src/ddb_huffman.h: the compression of values by a code over groups of four
-- bytes.
-- The maps from groups to code words are functions into Option, and the code book is a function of
-- the index.
pub mod Codec
pub mod Tokens
pub mod Pack
pub mod Unpack
pub mod RoundTrip
pub mod Code
mod Prefix
mod Merge
mod Book
mod Codemap
mod Leaves
pub mod Words
mod Tests
