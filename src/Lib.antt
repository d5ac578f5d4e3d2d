-- ===== src/Lib.antt =====
-- Models and oracles of the C++ unit suites of the CUBRID review workspace.
--
-- The repository keeps, under unit/, test suites that link against the CUBRID engine. The engine's
-- sources are not in the repository. What is, and is modelled here, is the logic that the suites carry
-- of their own: exact reference models that the engine's answers are compared with, and scripted
-- stand-ins for engine functions together with the outcome expected of a run; and the hooks through
-- which suites build an engine's structures by hand, read them and run one step of it.
--
-- From unit/query/numeric_opfunc.exact_paths/test.cpp:
--   Decimal       dec_strip, dec_strip_trailing, dec_cmp, dec_add, dec_sub, dec_pow10, dec_shift; a
--                 std::string of digits is a list of character codes, most significant first
--   Coefficient   dec_to_buf and buf_to_dec; the coefficient's bytes are a list, most significant first
--   Numeric       numv (its oracle keys), make_num, add_forms, exact_order, num_out, read_out, same_out;
--                 the engine's NUMERIC constructor and readers are the record `Engine`, and what the
--                 code relies on of them the record `Laws`; Numeric.Grids has the input grids (compare_grid,
--                 round_grid, int_numeric_grid); Trailing, Order, Outcome, Forms, Coverage and Filled are proofs
--   Rounding      develop_round, develop_floor_ceil, round_taken, floor_ceil_taken, below_2_128
-- Decimal carries the other three: Coefficient and Numeric strip and compare with it, Rounding adds.
--
-- From unit/transaction/locator_sr.check_foreign_key/test.cpp:
--   ForeignKey.World    the script's structures and ledgers (`world`, `fake_class`, `search_rec`)
--   ForeignKey.Build    find_class, partition_of, pk_holding, add_index, add_row, unfix
--   ForeignKey.Classes  add_class, add_partitioned, add_fk
--   ForeignKey.Fakes    the stand-ins for the error manager, key prints and clears, the caches
--   ForeignKey.Prune    the stand-ins for partition pruning and the B-tree search
--   ForeignKey.Expect   print_key and oracle, one function per part of a round of its loop
--   ForeignKey.Ledger, Pins, Held, Oracle, Messages, Rows: what is proved of them
-- The global `W` is passed as a `World`; a pointer to a class is its slot, a pointer from malloc the
-- number of allocations before it, and a pointer that may be NULL an Option.
--
-- The hooks of a suite are compiled into the engine's own translation unit and drive it by hand.
-- From unit/query/query_hash_join.bloom_filter/hooks.cpp:
--   BloomFilter            the layouts of `struct hjoin_bloom`, the engine's constants and the stand-ins
--   BloomFilter.View       the filter of each layout and unitseam_bloom_view_of; Workers the statistics
--                          and unitseam_worker_view_of
--   BloomFilter.Owner      unitseam_bloom_fill_now, _set_seen, _skip_bound, _check_bound, _may_contain
--   BloomFilter.Join       unitseam_hj_join_pair and unitseam_hj_second_key; Manager the two hooks around
--                          hjoin_init_manager; Early unitseam_bloom_early_key and _key_regu
--   BloomFilter.Outcomes, Steps, Checks, Freed, SecondKey, Mask: what is proved of them
-- From unit/query/query_hash_join.rtf_clone/hooks.cpp: RuntimeFilter, the filter filled by hand and
-- attached; Held, Fill and Capacity are its proofs. The table is as large as the loop over `cap` makes it.
-- From unit/query/query_executor.gby_cache_evicted/hooks.cpp: GbyCache.Evict, with the proof Cluster.
-- From unit/query/query_executor.h_gby_flush_replay/hooks.cpp: GbyCache.Fakes (the fakes of the engine's
-- other translation units), Flush and Added (the three scenarios), with the proofs Replay and Slots.
-- GbyCache has the entries and the cache that both share, Probing the walk of linear probing that the
-- runtime filter and the group cache share.
-- From unit/compat/db_vdb.kept_tree_registry/hooks.cpp: KeptTrees, with the proof Choreography.
-- Having, CharKeys, NumStep, LeafConstant, WorkerCheck and PrefixHash are, in this order, the hooks.cpp
-- of unit/optimizer/query_planner.having_selectivity, unit/optimizer/histogram_cl.char_keys,
-- unit/query/e_expr_batch.num_step_scale, unit/query/e_expr_batch.num_leaf_constant,
-- unit/query/px_scan_checker.worker_sp and unit/storage/btree.prefix_value_hash.
-- In all of these the engine's functions are a record of functions over a state that it chooses, and a
-- record of laws where a theorem relies on what they do. What the preprocessor or a template decides by
-- revision is a case on a layout or a shape. A walk runs on the table's size as fuel, the loop over
-- `cap` on twice the number of keys.
--
-- Numbers are the native naturals; `ℤ` of Prelude stands for the C++ int, long and long long, whose
-- overflow no modelled operation reaches on the lengths and scales the suites use; the masks of
-- BloomFilter.Early and GbyCache.Evict are 32-bit words. Loops over strings
-- are recursions on lists. Of the test files' loops, two run on fuel: the carry of dec_add, on the carry itself, which
-- falls in each round, and buf_to_dec, on three digits for each byte and one more. to_string has a
-- round of fuel for each unit of its number.
--
-- Not modelled: the engine, the test cases that call it, texts for reports, the random scenario
-- generator, hooks that only pass malloc, free or a constant of the engine on, and the other suites
-- under unit/, of which storage and optimizer carry models of their own.
pub mod Prelude
pub mod Decimal
pub mod Coefficient
pub mod Numeric
pub mod Rounding
pub mod ForeignKey
pub mod Probing
pub mod BloomFilter
pub mod GbyCache
pub mod Having
pub mod CharKeys
pub mod NumStep
pub mod PrefixHash
pub mod WorkerCheck
pub mod LeafConstant
pub mod KeptTrees
pub mod RuntimeFilter
pub mod Tests
