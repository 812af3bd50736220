-- ===== src/Pparser.antt =====
-- pparser/proc_human_parser.go: the parser of files of key-value lines into a struct.
-- A struct type is the list of its fields, which is what `reflect` shows of it, and a struct is the
-- list of its fields' values. All fields are exported.
pub mod Types
pub mod Index
pub mod Setters
pub mod Parse
pub mod Typed
pub mod Fields
pub mod Dict
