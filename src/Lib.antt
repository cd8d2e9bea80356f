-- ===== src/Lib.antt =====
-- p101-audit: a verification library for the audits of this repository.
--
-- The program reads the facts that lib_c_facts reports of C sources, and judges them. The wrapper
-- audit copies each record into a model (the observer), gives each macro use the function around
-- it, sorts the facts and drops those that are listed twice, and then judges every call, macro use
-- and include against an inventory of wrappers and the operator's allow rules. What is not excused
-- is a finding; a rule that excuses nothing is an error. The module map collects files, includes,
-- functions, macros, types, calls and notes in arrays of fixed size, counts them by module, and
-- reports where its rules are broken. The audit of error contracts fills a model with the functions,
-- events and ownership notes of the sources, checks each function's events against its contracts,
-- balances what each file acquires and releases, and follows the calls from the signal handlers. The
-- workspace checks compare files by their SHA-256 digest, and the doctor runs the audits and says in
-- words what their exit statuses mean.
--
-- Which file models what:
--   Wrapper               include/model.h: the structures; `copy_field`
--   Wrapper/Support       src/judge_support.c, every function
--   Wrapper/Allow         src/judge.c, `canonical_native_usr` to `is_allowed_macro_lowering`
--   Wrapper/Findings      src/judge.c, `grow_findings`, `add_finding`, the platform includes
--   Wrapper/Judge         src/judge.c, `p101_wrapper_model_judge`
--   Wrapper/Observer      src/model.c, `p101_wrapper_analysis_observer`
--   Wrapper/Callers       src/model.c, `assign_macro_callers`
--   Wrapper/Order         src/model.c, the comparisons and `deduplicate_facts`
--   Wrapper/Scan          src/model.c, `p101_wrapper_model_init` and `p101_wrapper_model_scan`
--   ModuleMap             components/module-map/include, model.h, constants.h, arguments.h: the map
--   ModuleMap/Strings     components/module-map/src/strings.c
--   ModuleMap/Relative    components/module-map/src/model_mutation.c, the relative includes
--   ModuleMap/Mutation    the operations of model_mutation.c, and model_notes.c
--   ModuleMap/Query       components/module-map/src/model_query.c and idioms_includes.c
--   ModuleMap/Loader      fact_loader.c and native_analysis.c: what facts and records do to the map
--   ModuleMap/Idioms      components/module-map/src/idioms.c
--   ModuleMap/Report      components/module-map/src/report.c, the rules and their findings
--   ErrorContract         components/error-contract/include, contract_types.h and constants.h: the model
--   ErrorContract/Event   components/error-contract/src/contract_event.c; the kinds of ownership
--   ErrorContract/Builder contract_builder.c: the operations that fill the model
--   ErrorContract/Loader  contract_model.c, `apply_fact`; native_analysis.c, `apply_record`
--   ErrorContract/Analysis contract.c, `analyze_model` and `analyze_ownership`; the finding of report.c
--   ErrorContract/Signals contract.c, `analyze_signal_handlers`
--   ErrorContract/SafeCalls contract.c, the table of `call_is_async_signal_safe`
--   ErrorContract/Run     contract.c, `p101_error_contract_run`; native_analysis.c, the loading
--   Workspace/Sha256      components/workspace/src/sha256.c
--   Doctor                components/doctor/src/status.c
--   Base                  Boolean tests, lists, texts and searches that the others share
-- The child modules of a component hold its lemmas and theorems, and its module Tests the runs.
--
-- How the code is read. A structure is a record, an array with its count a list, a `char` array
-- the text before its NUL, and a nullable pointer an option. A function that changes the model or
-- the counters of the rules returns them. A call of p101_<name> of lib_c is the C library's <name>.
-- A `size_t` is a natural number, and where the code adds or multiplies, the result is taken modulo
-- 2 ^ 64. The temporaries p101_expression_result_<n> spell out `&&` and `||`, and are written so.
-- The kinds that the sources name are constructors of `Kind`, and `other` is any further kind.
--
-- Code outside the repository is a parameter. `Platform` says which sizes realloc grants, what
-- snprintf writes, what fnmatch matches, and two `sizeof`. `code` is the numbering of the kinds,
-- `sort` is qsort on the array of facts, and `Analysis` is a run of `p101_c_analysis_scan`. What is
-- assumed of them stands with the theorems that need it (`Granting`, `IsAllocator`, `Sorts`). In the
-- audit of error contracts `note_kind` is `p101_c_note_kind_from_name`, the list of records is what
-- `p101_c_analysis_scan` hands to its callback, `accepts` says which diagnostics the tool support
-- initializes and emits, `allocated`, `begun` and `ended` whether the allocation and the report succeed,
-- and `NativeAnalysis` has the errors that the loading may meet besides. Nothing is assumed of these, nor
-- of `WaitMacros`, the macros of <sys/wait.h>, and of `Decimals`, what "%d" prints. `ReportPlatform` has the
-- functions of <ctype.h> and the errors that may be raised before the first rule of the module map is
-- asked, and `LayerFile` what fopen, fgets and fclose make of the declared layers; the theorem on the
-- report says which of these errors it excludes (`IsQuiet`).
--
-- The pointer to a module that the map hands out is its index in the array.
--
-- Fuel: the normalisation of a relative path has a round for each byte, and a round drops one at
-- least. The loop of `path_matches` has one round more than the path has bytes, and a round that
-- goes on drops a slash. The loop that marks the functions which a signal handler reaches has one round
-- more than there are functions, and a round that goes on marks one more. The loops that fill a block of
-- SHA-256 with zeros have 64 rounds, and a round writes one of its 64 bytes. All other loops recurse on a
-- list, or count down.
--
-- Not modelled: the text of messages, the freeing of arrays, tracing, and the fields of the
-- arguments that neither the scan's callback nor the judge reads. The error object is modelled by
-- what the functions return. The reading of the inventory (src/inventory.c) and of saved facts, the
-- command lines, the output, the printed tables of the module map, and the other parts under
-- components/ are not modelled.
pub mod Base
pub mod Wrapper
pub mod ModuleMap
pub mod ErrorContract
pub mod Workspace
pub mod Doctor
