-- ===== src/Lib.antt =====
-- jsonize (jz) turns the printed output of commands into JSON. A definition says how the text of a
-- command is cut into lines, records and fields; the engine reads a text by it, accounts for every
-- line, and builds ordered JSON objects. These modules model the parts between the text and the
-- values: what happens to bytes, lines, rows, trees, lengths of time and object members.
--
-- How the parts meet: an input is cut into records (`Engine.Split`), each rid of escape sequences
-- (`Ansi`) and checked to be UTF-8 (`Utf8`); a csv groups its lines into records (`Csv`); folded
-- lines are joined (`Engine.Fold`), blank and ignored ones dropped (`Engine.Prepare`), a region is
-- selected (`Engine.Select`), and a parser reads it, marking the lines it read in a ledger
-- (`Engine.Ledger`). `Engine.Account` composes them as `ParseAccounted` does. Two of the parsers are
-- modelled by themselves: trees (`Tree`) and the cutting of the rows of tables (`Table`, with
-- `Width`). What a parser makes is an `Object`; a field of type duration is read by `Duration`. A
-- stream reads its input a record at a time by `Record`. An LTSV line is read by `Ltsv`, the keys that
-- the command line names are taken from a result by `KeyFilter`, and `JsonString` writes its strings.
-- Which definition an input is read by is chosen by `Selector`, from its first lines, the arguments and
-- the system; the schema that describes the output of a definition is compared with that of its earlier
-- version, and documents are checked against it, by `Schema`. `Pointer` reads the places that the
-- arguments of `jz new` name.
--
-- Files and the code they are about:
--   Object, Object/*     pkg/jsonutil/object.go: `Object` and its operations. `set` is `Set`, `get` is
--                        `Get`, `delete` is `Delete`; the index is an association list, or none.
--                        Scan has the specification on lists of members, Index the invariant, Laws
--                        the laws of a dictionary.
--   Ansi, Ansi/*         pkg/convert/convert.go: `StripANSI`, `escapeEnd`.
--   Record, Record/Spec  internal/recordio/recordio.go: `Read`, and its specification.
--   Space, Utf8, Runes   what is used of Go's strings, unicode and utf8 packages.
--   Engine, Engine/*     pkg/engine/engine.go and pkg/engine/ledger.go: `splitRecords`,
--                        `prepareRecord`, `checkRecord`, `foldLines`, `prepare`, `applySelect`,
--                        `ParseAccounted`, `ledger` and its methods.
--   Stream, Stream/*     pkg/engine/stream.go: `Stream` up to its parser. Flow has the hold, Stages a
--                        stage each (`feedPhysical`, `feedRaw`, `feedFolded`, `feedSelected`), Whole
--                        the loop of `Stream` over `Read` of internal/recordio and `finish`; Reading
--                        compares the loop with `splitRecords`, Grouped, Folded, Released and Picked
--                        each a stage with its part of `ParseAccounted`, Agree the whole. Tracks to Held
--                        are about a stream that its limit ends, Counting to Balance about what the
--                        counter of the hold counts.
--   Csv, Csv/*           pkg/engine/csv.go: `csvQuote`, `csvRecords`.
--   Tree, Tree/*         pkg/engine/tree.go: `treeDepth`, `openingUnit`, `treeNodes`, `parseTree`.
--   Width, Width/Search  pkg/engine/width.go: `cellWidth`, `wideRanges`.
--   Table, Table/*       pkg/engine/table.go: `alignedCells`, `cellEnd`, `runeAt`, `allNarrow`,
--                        `splitFieldsN`, `whitespaceCells`, `checkCount`.
--   KeyFilter, KeyFilter/*  internal/cli/keys.go: `keyFilter` and its methods, for --extract and
--                        --exclude.
--   JsonString, JsonString/End  pkg/jsonutil/object.go: `writeString`, `writeEscape`.
--   Ltsv, Ltsv/Lines     internal/datafile/ltsv.go: `ltsvLine`, `validLabel`, with the `counter` of
--                        internal/datafile/datafile.go.
--   Schema, Schema/*     internal/schema/compat.go and internal/schema/validate.go: `Compare`, `Breaking`
--                        and `Validate`, with the data and lookups of internal/schema/schema.go. Types
--                        has `normalizeTypes`, Compare and Validate the two programs, Shape the schemas
--                        they are meant for; Growth to Alike say what a comparison that reports nothing
--                        breaking has met, Fits and Sound what it means for a document, Ends is about
--                        the end of a comparison.
--   Selector, Selector/* pkg/selector/selector.go and pkg/selector/watch.go: `Select` and `Watch`, with
--                        what they read of pkg/definition/definition.go and pkg/registry/registry.go.
--                        Settle has `settle`, Args `matchArgs`, Window `signatureWindow`, Check `check`
--                        and `matchSignature`, Watch `decide` and `settledBetween`, Scan the search,
--                        Reach `Candidates` and `Window`; Tie and Best are about the choice, Judged to
--                        Final about decisions on first lines, Standing about a choice that stays, Search
--                        about the outcomes of a search, Enough about the lines that have to be read.
--                        Distance has `levenshtein` and `suggest`, Edits what a distance is.
--   Pointer, Pointer/Rendered  internal/jsonbuild/jsonbuild.go: `location`, `pointer`, `unescape`,
--                        `isIndex` and `render`.
--   Duration, Duration/* pkg/convert/convert.go: `Duration`, `wholeClock`, `parseDuration`,
--                        `parseClock`, `parseUnits` and their helpers.
--   Prelude, Prelude/*   what the modules share on lists, texts and tests.
--   Examples, Examples/* runs of the definitions on small inputs.
--
-- A text is the list of its bytes, or of its runes where the code walks runes. Numbers are natural
-- numbers; the code's are machine integers that the lengths of inputs bound, and a length of time is
-- refused past 2 ^ 53 seconds. A `big.Rat` is a decimal fraction, a numerator over a power of ten,
-- which every value the code makes of one is. A regular expression is a test on texts, the parser of
-- a definition a function of the ledger and the lines, and the marks and format characters of Go's
-- unicode tables a test on runes: each is an argument. What the selector relies on of an expression is
-- `Selector.Judged.IsRegexp`.
--
-- Fuel: `Record.read` has a round for every byte and one more, `Tree` a call for every line and one
-- more and a step for every level to the limit and one more, `walk_right`, `units_from` and
-- `sort_search` a round for every byte, rune or range, and each round uses one up. `leading_lines`
-- and `feed_input` have a round for every byte of an input, the second one more, and each round takes a
-- byte at least, which `Stream.Reading` shows of the second. The fuel of `compare` bounds how deep its
-- calls nest, and a comparison without fuel has no result: the height of a schema without references is
-- enough.
--
-- Not modelled: the parsers of regular expressions, key=value lines, ini files and boxes, the typing
-- of fields, the encoding of JSON but for strings, the parsers of a stream, the loading of definitions and
-- of registries, the analysis of the syntax of expressions, the generation and encoding of schemas, the
-- texts of errors, which are apart from these modules; encoding/csv, encoding/json, regexp and time,
-- which are libraries the code calls; processes, files and the command line.
pub mod Prelude
pub mod Object
pub mod Ansi
pub mod Record
pub mod Space
pub mod Utf8
pub mod Engine
pub mod Csv
pub mod Tree
pub mod Width
pub mod Runes
pub mod Table
pub mod Duration
pub mod KeyFilter
pub mod JsonString
pub mod Ltsv
pub mod Stream
pub mod Schema
pub mod Selector
pub mod Pointer
mod Examples
