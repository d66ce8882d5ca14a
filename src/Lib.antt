-- ===== src/Lib.antt =====
-- A model of the core logic of the review application, with proofs of what makes it correct.
--
-- The program is a document review system in Python. The application (app/) keeps matters, their
-- documents and the metadata on them; the artifact service (artifact_service/) keeps collections
-- of items with their artifacts and the blobs behind these; durable workflows (app/workflows/) run
-- the long jobs of both. The parts of the model:
--
-- - Prelude: what the other modules share. Python's list, set and sort operations over List, with
--   their lemmas; Result, for a call that returns or raises, with `require` and `refuse` for
--   `if not test: raise` and `if test: raise`; lists without repetition; sequences of code points.
-- - Metadata (app/document_metadata.py, with the rows of app/models.py): the event log of a
--   document's fields. Metadata/Types.antt has the rows, Metadata/Resolve.antt derive_event_states
--   and resolve_field, Metadata/Values.antt value_columns and the values a field can hold,
--   Metadata/Store.antt the tables with project_field, validate_event_relationships and
--   add_metadata_event, Metadata/Batch.antt apply_metadata_values. The proofs are below each:
--   Resolve/Standing and Resolve/Policies on which events count, Resolve/Fields and
--   Resolve/Conflicts on what they resolve to, Values/Storing on the columns, Store/Projection,
--   Store/Appending, Store/Checks, Store/Reading and Batch/Applying on the tables.
-- - Imports (app/matter_imports.py): Imports.antt has the tables and the import of the items of a
--   batch, Imports/Progress.antt process_batch, refresh_progress and mark_failed, and
--   Imports/Replay.antt the theorems.
-- - Agents (app/agent_conversations.py): Agents.antt has the tables and create_turn,
--   Agents/Opening.antt create_conversation, Agents/Deciding.antt decide_action, Agents/Decided.antt
--   the sequences of calls and their invariant, Agents/Answered.antt what one call writes.
-- - Chunking (app/embeddings/chunking.py): the cut of a text into overlapping chunks for
--   embeddings. Chunking.antt has the spans and the units, Chunking/Emission.antt the packing with
--   its state; Chunking/Partition.antt and Chunking/Whole.antt have the theorems.
-- - Deletion (artifact_service/deletion.py, with the rows of artifact_service/models.py, and the
--   workflow of app/workflows/collection_deletion.py): Deletion.antt has the tables,
--   Deletion/Jobs.antt create_deletion_job, retry_deletion_job, prepare_deletion,
--   complete_deletion and fail_deletion, Deletion/Rows.antt the batches that delete rows and
--   schedule blobs, Deletion/Blobs.antt the batches that remove blobs from the object storage,
--   Deletion/Workflow.antt the two loops, Deletion/Validating.antt the workflow's first step, which
--   reads the tables of Imports, and Deletion/Process.antt the workflow with its except branch, one
--   step at a time. Deletion/Reachable.antt takes all calls as the steps of a state machine;
--   Deletion/Emptied.antt and Deletion/Removed.antt are about the loops, and Deletion/Ended.antt,
--   over Deletion/Shrinking.antt, about the end of the whole workflow.
-- - Search (app/search/query.py, with metadata_query_path of app/search/mappings.py): Search.antt has
--   the request, the query language that it compiles to and the clause of a filter,
--   Search/Compile.antt compile_search_request, Search/Requests.antt the requests for the values of a
--   facet and for a histogram. Search/Scoped.antt is about the documents that a query finds,
--   Search/Accepted.antt about its values and vectors, Search/Facets.antt about facets.
-- - Reviews (app/review_batches.py and app/routers/review_batches.py): Reviews.antt has the rows,
--   Reviews/Materialize.antt the selection of a batch's documents with materialize_review_batch,
--   which compiles a search with the compiler of Search, Reviews/Sources.antt the documents that it
--   may choose from, Reviews/Paging.antt the loop over the pages of hits, Reviews/Runs.antt the
--   start of runs, Reviews/Coding.antt the documents of a run and its progress,
--   Reviews/Comparing.antt the comparison of two runs. Reviews/Recorded.antt and
--   Reviews/Tracked.antt take the calls on runs as the steps of a state machine.
-- - Configuration (app/matter_configuration.py): Configuration.antt has a stored configuration, as
--   the JSON values of its dicts, and instantiate_configuration_snapshot, which makes the rows of a
--   new matter from it. Configuration/Values.antt is about the values and the columns,
--   Configuration/Rows.antt about one row, Configuration/Instance.antt about all of them. A text is
--   its list of code points.
--
-- Each Examples.antt runs its part on small inputs.
--
-- State is passed explicitly: a session's tables are a record of lists of rows, a query is a
-- selection on them, and a call that raises gives `err` and leaves the tables as they were, as the
-- rollback does. Ids and times are natural numbers in the order of the code's comparisons: a
-- timestamp with its UUID compares as a pair of numbers. Python's integers have no bound, and where
-- the code checks one (the 64-bit range of an INTEGER field) it is written out; floats are their
-- bit patterns.
--
-- Parameters stand for what is not the program's code: json.dumps (`canonical`), the ISO parsers
-- and float (`Conversions`), the matches of a regular expression (`match_ends`), sha256
-- (`identify`), fresh UUIDs (`new_id`, `id`, `definition_id`, `group_id`), the clock (`now`), and
-- the requests that the object storage refuses (`refuses`), isoformat (`Formats`), the score
-- expression on floats (`score`), re.escape (`escape`), `str` of what is not a text and `int` of a
-- text (`repr` and `parse`), the right to administer a matter (`may_admin`), and the search engine
-- with what its documentation says of it (`Engine`, and `search` with its pages). What the theorems
-- suppose of them stands among their hypotheses.
--
-- Loops that Python writes with `while` run on fuel: `skip_left` and `skip_right` on the distance
-- that they can still move, `split_from` on one round for each character, since each round moves
-- its cursor when the maximum is positive (app/config.py asks for at least 300), the deletion
-- loops on one round more than there are rows, since each batch before the last removes a row, and
-- the pages of hits on one round more than there are documents.
--
-- Not modelled: the columns that no rule reads, foreign keys and CHECK constraints of the tables,
-- DBOS's repetition of failed steps, logging, audit records, and who may do what beside the guards
-- of the modelled calls. Of the other parts of the program (import workflows, the agents' runtime,
-- the projection of documents into the search index, embeddings jobs, topic clustering, text
-- processing, the other HTTP routers, the scripts and the web front end) nothing is modelled.
pub mod Prelude
pub mod Metadata
pub mod Chunking
pub mod Deletion
pub mod Imports
pub mod Agents
pub mod Search
pub mod Reviews
pub mod Configuration
