-- ===== src/Lib.antt =====
-- parity-wasm: the reader and writer of WebAssembly modules.
--
-- The program reads a module from bytes and writes it back. Its bottom is a byte reader (src/io.rs)
-- and the primitive encodings (src/elements/primitives.rs): LEB128 integers, words, strings and
-- counted lists. The types of a module (src/elements/types.rs) are read and written with them, and so
-- is the map from indices to values that names are kept in (src/elements/index_map.rs).
--
-- Files and what they model:
--   Base: tests on numbers, bits, lists, results that can panic, and integers of two signs.
--   Io: `Cursor` of src/io.rs; Io/Refines has its runs of reads.
--   Elements/Error: `Error` of src/elements/mod.rs.
--   Elements/Codec: readers (`Reader`) and writers (`Written`) over lists of bytes, and what it means
--     that a reader restores what a writer wrote (`Restores`). A `?` of the source is a bind.
--   Elements/Buffered: the macro `buffered_read!` of src/elements/mod.rs.
--   Elements/Primitives: src/elements/primitives.rs, a module for each type. `VarUint32` and
--     `VarUint64` share the loops of Unsigned, `VarInt32` and `VarInt64` those of Signed, each with
--     its own width, tests and errors. Format in both is LEB128 as it is described, apart from the
--     code.
--   Elements/Types: src/elements/types.rs.
--   Elements/ImportEntry, Elements/ExportEntry: src/elements/import_entry.rs and export_entry.rs.
--   Elements/IndexMap: src/elements/index_map.rs.
--   Elements/Ops: src/elements/ops.rs. A `match` on an opcode is the list of its arms
--     (Ops/Read/Operands), and `Instruction` has the source's constructors, in antt's spelling. The
--     opcodes stand as numbers where the source has constants. Ops/Blocks has `Instructions` and
--     `InitExpr`.
--   Elements/Segment: src/elements/segment.rs and global_entry.rs.
--   Elements/Func: src/elements/func.rs.
--   Elements/Section: src/elements/section.rs. Section/SectionReader is the reader that takes the
--     bytes of a section ahead, Section/Lists the sections that are lists.
--   Elements/RelocSection, Elements/NameSection: src/elements/reloc_section.rs and name_section.rs.
--   Elements/Module: src/elements/module.rs. Module/Codec has its reader and writer, Module/Names
--     `parse_names`, `parse_reloc` and the readers of src/elements/name_section.rs, Module/Peek
--     `peek_size`.
--   Builder/Module, Builder/Regions, Builder/Code: src/builder/module.rs, with what it takes of
--     memory.rs and table.rs, and src/builder/code.rs.
--   Elements/Total: what it means that a reader ends on every input; the modules named Total follow
--     the tree of readers with it.
--   Elements/Buffer: `Unparsed` and `deserialize_buffer` of src/elements/mod.rs.
--   Examples: runs of the definitions and theorems at concrete inputs.
--
-- A `Read` is modelled as the list of the bytes that are left, which a `Cursor` is; a `Write` is a
-- `Vec<u8>`, which takes every write. A number of the program is a natural number or an integer, with
-- its wrap-around written out. A string is the list of its bytes. A subtraction that underflows panics
-- in a debug build and wraps in a release build: `Cursor::read` and the indices of `ModuleBuilder`
-- (`last_index`) take the panic, `IndexMap::remove` (`less_one`) wraps.
--
-- Bounds and fuel: the loops that read LEB128 recurse on the bytes that are left, and their test of
-- the shift ends them; those that write recurse on the number, which each step makes smaller.
-- `buffered_read!` has fuel of its length, of which every turn takes at least a byte. Iteration over
-- an index map has fuel of the length of its vector. The loops over instructions have fuel of a round
-- for every byte that is left, and one more, and so has the loop over the sections of a module. What
-- is proved of these does not assume that the fuel lasts.
--
-- Not modelled: the builders of imports, exports, globals, data, tables and memories; the
-- formatting of errors and types, the accessors that only return or lend a field, `std::io`, files.
-- The crate byteorder is a parameter (Elements/Primitives/ByteOrder), and so are the values of
-- an index map, their equality and their readers and writers.
pub mod Base
pub mod Io
pub mod Elements
pub mod Builder
mod Examples
