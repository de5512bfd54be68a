-- ===== src/Lib.antt =====
-- Verification of the optimized hash join pipeline: the unchained hash table with its parallel build
-- and its probe, the scans, the joins and the plans that use it, the filters that select rows while
-- tables are loaded, the conversion of tables to pages and back, and the CSV parser.
--
-- The program loads CSV files into columns; a filter (include/statement.h, src/statement.cpp) is
-- evaluated on the columns of include/inner_column.h and gives a bitmap of the rows to keep. A query
-- plan then joins the tables: for each join `UnchainedHashTable` (include/unchained_ht.h) is built
-- from one side by all threads, which write entries into the slabs of include/utils.h, one partition
-- for each value of the hash's top six bits, and then move each partition into the table. The other
-- side is probed (src/execute.cpp).
--
-- Hash        `crc_hash` and the tags of include/utils.h and include/unchained_ht.h
-- Column      `value_t`, `column_t` and `get_value` of include/utils.h
-- Slab        `GlobalAllocator`, `BumpAllocator`, `ThreadLocalState` of include/utils.h, and
--             `forEachEntryInPartition` of include/unchained_ht.h; Slab.Memory where the small
--             chunks lie, Slab.Arena where the large ones lie
-- Unchained   the constructor, `lookup` and `postProcessBuild` of include/unchained_ht.h, and the
--             loop over a looked-up range of src/execute.cpp
-- Build       `build_parallel` of include/unchained_ht.h
-- Filter      `FilterThreadPool` of include/inner_column.h; Filter.Values and Filter.Strings its
--             columns, Filter.Bitmap the bitmaps of src/statement.cpp, Filter.Statement the two
--             evaluations of statements, Filter.Like `like_match` of include/statement.h
-- Csv         `CSVParser` of include/csv_parser.h and src/csv_parser.cpp
-- Pages       `to_columnar`, `from_columnar` and `copy_scan` of src/build_table.cpp, with the pages of
--             include/plan.h
-- Scan        `build_column_inserter` of src/execute.cpp; a column is Column.Readable when it holds
--             values, in pages or in buffers
-- Join        `JoinAlgorithm::run` of src/execute.cpp; Join.Nested the join that it stands for
-- Query       `execute_impl`, `execute_hash_join` and `execute_scan` of src/execute.cpp on the plans
--             of include/plan.h; Query.Rows relations as lists of rows, and their join
-- Base        lists, bits, sums and code that can fail, for the other files; Tests runs and
--             witnesses
--
-- State is passed on explicitly. `none` stands for undefined behaviour, an exception or an abort, so
-- that a theorem that a call returns also says that it stays inside its arrays. Memory is arrays by
-- index; a pointer into the entries is the address `base` plus eight times the index, and a word of
-- the directory has 64 bits. A 32-bit key is its pattern. Sizes and row counts are below 2^64 and
-- are not reduced, but in `reserve`.
--
-- Threads run one after the other. In each parallel section of the program the threads write to
-- disjoint parts of the state (their own slabs, their own partitions, their own bytes of a bitmap),
-- and the one shared counter, that of the large chunks, hands out a chunk once whatever the order.
-- A chunk owns its entries: that chunks do not overlap is part of the model. A write by a thread is
-- a fault outside the data of the large chunks that it has got, and outside the small chunk. Which
-- thread takes a page or a buffer of the probe side is decided by a race: there the theorem holds
-- for every function from items to threads.
--
-- Parameters are the CRC instruction, `mmap`, the addresses that the heap returns, the `double`s
-- with their comparisons and conversions, and the regular expressions of RE2. Loops over ranges are
-- by recursion on the number of rounds, which the caller computes; `grow_shift` has 22 rounds, since
-- with shift 31 the source overflows an `int`. `execute_impl` has fuel for the depth of the
-- recursion, and the depth of the query is enough.
--
-- Not modelled: the handshakes of the two thread pools, the materialisation of src/execute.cpp and
-- the page inserters of include/plan.h, the reading of CSV files and the cache of
-- src/build_table.cpp, and printing. The scan of a column of strings is modelled, but the theorems on
-- whole plans are about plans whose scans are of integer columns.
mod Base
pub mod Hash
pub mod Unchained
pub mod Column
pub mod Slab
pub mod Build
pub mod Filter
pub mod Csv
pub mod Pages
pub mod Scan
mod Tests
pub mod Join
pub mod Query
