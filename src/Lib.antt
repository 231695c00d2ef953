-- ===== src/Lib.antt =====
-- A model of the DOCSIS configuration file generator, with the theorems that its parts agree.
--
-- The program turns the text of a configuration into the binary file that a cable modem or an MTA
-- loads, and such a file back into text. A parser makes a tree of settings; each setting's value is
-- encoded as its row of the symbol table says; the tree is flattened to type, length and value; a
-- modem's file gets two message integrity checks and padding, an MTA's file a hash and a dial plan;
-- the decoder walks over the bytes and prints every setting by its row again.
--
-- Common: numbers, lists, machine words, and `Run`, the outcome of code that may call `exit` or
--   panic. Text: what the sources use of Rust's strings (numerals, `split`, `trim`, `join`).
-- Values: src/value.rs. Symbol: src/symbol.rs; the table is an argument of the lookups.
-- Symtable: src/symtable.rs, row by row in Symtable.Rows1 to Rows11, each row by the helper of
--   Symtable.Row; Every, Order, Codecs, Numbers, Printed and Generic are about the rows.
-- Lexer: src/lexer.rs; Lexer.Tokens has the tokens and the keywords, Lexer.Matchers the functions
--   that give the length of a match. The position is the list of the bytes not read yet. Longest,
--   Termination, Bounds and Strings are about it.
-- Parser: src/parser.rs; Parser.Reading has the steps that take one token. The position is the list
--   of the tokens not read yet. Exits, Termination, RoundTrip and Addresses are about it.
-- Ethermac: src/ethermac.rs.
-- Asn1: src/asn1.rs, a function for each builder and parser; a buffer that a builder appends to is
--   the list it returns. Asn1.Header, Number, Subid, ObjectId and VarOp are its proofs.
-- Mib: what the codecs ask of src/mib/, as a record of functions.
-- Snmp: src/snmp.rs, with Snmp.Hint for `hinted_integer`; Snmp.Bindings is about `encode_vbind`.
-- Encode: src/encode.rs; Encode.Scalar has the numbers and the strings, Encode.Address the addresses;
--   Encode.Width is about the lengths, by the helpers of Encode.Outcome; Encode.Exits about errors.
-- Decode: src/decode.rs; Decode.Leaf has the settings that hold no others. The position in a buffer
--   is the list of the bytes not read yet, and `self` is the record `Decoder`. Decode.Returns and
--   Decode.Termination are about its loops.
-- Assemble: src/main.rs. Assemble.CommandLine reads the arguments, after the test for `-V` of
--   src/version.rs, and Assemble.Program is `main`;
--   CommandLine.Modes and Program.Termination are about them. Assemble.OneFile is `encode_one_file`
--   over the lexer, the parser and the rest, with Assemble.Halts; Assemble.Tree is `flatten`,
--   Assemble.Sign the integrity checks and the padding, Assemble.Mta the hash and the dial plan,
--   Assemble.Extension `replace_extension`; Frames, Reader, Covered, Selection, Padding, Hash, Dialplan,
--   Recovery and Modem are about them.
-- RoundTrip: the encoders against the decoders, by kind of setting and, in Rows, by rows of the table.
-- Examples: concrete inputs.
--
-- Loops are structural recursion where the code walks over a list. The others take fuel: the stack
-- of `encode_subid` has its five places; the loops of the decoder take as many rounds as the buffer
-- has bytes, and each round takes a byte at least; so do those of `add_cmts_mic` and of the
-- scanner, and the parser's take as many as there are tokens (these give `out_of_fuel`, or the
-- scanner's `no_fuel`, when there is too little); Rust's `chunks` and `chunks_exact` have the
-- length as fuel; decimal numerals have at most 20 digits, since they are of 64 bits.
--
-- Parameters: the symbol table (an argument nearly everywhere), the files, the MIB, Rust's parser
-- and printer of IPv6 addresses, the digests of the md5, hmac and sha1 crates, the key and the dial
-- plan's file. `build_objid` wraps around at 32 bits, as a release build does.
--
-- Not modelled: the reader and printer of MIB modules (src/mib/), the text of the version report, messages, and
-- the tests that compare all rows of the symbol table with all.
pub mod Common
pub mod Text
pub mod Ethermac
pub mod Values
pub mod Symbol
pub mod Symtable
pub mod Mib
pub mod Asn1
pub mod Snmp
pub mod Lexer
pub mod Encode
pub mod Decode
pub mod Assemble
pub mod Parser
pub mod RoundTrip
pub mod Examples
