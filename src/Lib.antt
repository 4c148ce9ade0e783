-- ===== src/Lib.antt =====
-- OraDuck, a DuckDB extension that reads from Oracle and loads into it: how a scan is planned, which rows
-- its statements read, what the bytes of dates and numbers mean, how a batch is fetched, and how a load
-- runs and ends.
--
-- How the parts interact. A name is resolved and described by queries to the data dictionary
-- (DescribeSource, or DescribeTarget for a load). A scan of the table is planned as slices: plan_work asks
-- the database for extents, chunks or a hash, and for an SCN; build_rowid_slices cuts extents into ranges of
-- ROWIDs. For each column plan_read_column picks the DuckDB type and how Oracle is asked for it;
-- translate_filter turns a filter into SQL with binds, or into nothing. build_scan_sql joins the columns, the
-- filters and one slice into the statement of that slice, which a FetchCursor runs in batches. The bytes
-- that come back, and the bytes of a load, are Oracle's NUMBER, DATE and TIMESTAMP formats. A load plans its
-- columns and sends its rows through a DirectPathLoader.
--
-- Prelude and its children: lists over the native numbers, texts as lists of bytes, integers, and
--   Result, in which `err` is a thrown OraduckError (src/include/oraduck/errors.hpp).
-- Names (src/oracle_names.cpp): ParseTargetName, ClassifyOracleType, OracleColumn.
-- Slice (src/include/oraduck/read_sql.hpp) and Rowid (src/rowid_ranges.cpp): EncodeRowid and
--   BuildRowidSlices. std::map is a sorted association list and both sorts are insertion sorts; the
--   loop over the blocks of an extent has as much fuel as the extent has blocks, and each round takes
--   one at least.
-- Civil and Dates (src/oracle_encoding.cpp, src/oracle_decoding.cpp): SplitMicros, CivilFromDays,
--   DaysFromCivil, and the writers and readers of DATE and TIMESTAMP. int64_t is ℤ: the functions stay
--   within it for the days of a time in microseconds, and ℤ has no bounds.
-- NumberEncode (src/oracle_encoding.cpp): DecimalDigits, EncodeFromDigits, EncodeOracleNumber. A
--   digit loop has fuel for the digits of the widest magnitude, 20 for 64 bits and 39 for 128.
-- NumberDecode (src/oracle_decoding.cpp): ParseNumber, ChunkValue, Mul64, the 128-bit accumulator,
--   ScaledMagnitude, and the three decoders over them.
-- Stateful (src/include/oraduck/errors.hpp): code that changes a state and throws; a throw keeps the state
--   it happens in. Its Inversion says what code that returned or threw has done.
-- Session (src/oci_session.cpp, only what its two calls promise): what the database answers is a parameter,
--   which may depend on all calls before; the state is the list of the calls.
-- DescribeSource with Schema (and its Ordered, Kinds, Columns and Listed), Kept and Synonyms
--   (src/describe_source.cpp): std::map is a list ascending by name. DescribeTarget
--   (src/describe_target.cpp). The loop over synonyms goes down from MAX_SYNONYM_DEPTH and needs no fuel.
-- WorkUnits with Extents, Plan and below (src/work_units.cpp). The name of a task is random, and a parameter.
-- OciCalls (src/oci.cpp) and DirectPathLoader with Cells, Open, Rows, Traces and Ends
--   (src/direct_path_loader.cpp). What OCI answers is a parameter, which may depend on all calls before and
--   their answers; the loader has them as its trace. The loop of ConvertAndLoad has fuel for 4097 rounds for
--   each row, since at most 4096 streams in a row may be sent without one.
-- FetchCursor with Batches, Lobs and Fetch (src/fetch_cursor.cpp): the sizes of batches, Fetch, and the LOB
--   values. What OCI answers past CheckOci is a parameter, and so is the memory that `new` gives. The loop
--   of ReadLob has the length of the value as fuel, since each piece has a character or a byte at least.
-- Oci (src/include/oraduck/oci_api.hpp): the codes of external types.
-- ReadTypes (src/read_types.cpp): PlanReadColumn and the setting for NUMBER without a precision.
-- Binds (src/sql_binds.cpp): the bind variables, with the text of a double as a parameter.
-- ReadSql (src/read_sql.cpp): ShiftPlaceholders and BuildScanSql. A round of the scanner takes one
--   byte at least, so that the length of the text is fuel enough.
-- FilterSql (src/filter_sql.cpp): TranslateFilter.
-- ColumnPlan (src/column_plan.cpp): BuildColumnPlan, with what DuckDB answers about a type as data; the
--   std::set of targets is a list.
-- Examples, SessionExamples, LoaderExamples, CursorExamples: concrete runs.
--
-- Unsigned integers are natural numbers with their wrap-around written out. A function that fills a
-- buffer and says whether it could returns an Option of the bytes.
--
-- Not modelled: what OCI and DuckDB do (sessions, statements, the preparation of a cursor, the extension's
-- registration, catalog and scan functions), which belongs to those libraries, the cells that chunk_writer.cpp
-- and scan_vectors.cpp copy, and the programs under tools/, bench/ and test/.
pub mod Prelude
pub mod Names
pub mod Slice
pub mod Rowid
pub mod Civil
pub mod Dates
pub mod NumberEncode
pub mod NumberDecode
pub mod Oci
pub mod ReadTypes
pub mod Binds
pub mod ReadSql
pub mod FilterSql
pub mod ColumnPlan
pub mod OciCalls
pub mod DirectPathLoader
pub mod FetchCursor
pub mod Session
pub mod Stateful
pub mod DescribeSource
pub mod DescribeTarget
pub mod WorkUnits
pub mod Examples
pub mod SessionExamples
pub mod LoaderExamples
pub mod CursorExamples
