-- ===== src/Lib.antt =====
-- A model of the core of vocode, a terminal coding assistant that runs workflows of language model
-- agents, and proofs about it.
--
-- A run of a workflow keeps its state as a tree of steps with branches; the history manager is what
-- changes it. The user's messages reach the running nodes through the input manager. The user writes
-- them in the text editor of the terminal interface and chooses from select lists there. The models
-- change files by patches, keep a plan of tasks, and call tools of MCP servers.
--
--   Workflow  src/vocode/state.py and the enums of src/vocode/models.py. Data has the records,
--             Access the accessors of WorkflowExecution, NodeExecution and Step, Action the state and
--             error monad of the history: the workflow execution, the ids and the times that the
--             interpreter will give, and an outcome, `ok` or `raised`. What was written before a raise
--             stays written.
--   History   src/vocode/history/manager.py and src/vocode/history/models.py. Walk has the loops to
--             the root, Branches the branches and the visible ids, Steps upsert_message,
--             upsert_node_execution and upsert_step, Remove the deletions, Compose insert_step,
--             fork_from_step and edit_user_input. upsert_step is cut into the stages of its body. An
--             object that Python reaches by reference is the one in the dictionary under its id.
--   Editor    src/vocode/tui/lib/components/text_editor.py. State, Moves, Edits and Words have the
--             methods of TextEditor, Run all of them as values, and Text the abstract view: the text
--             before and behind the cursor. `none` stands for an IndexError, of a line
--             or of a character that is not there. What str.isalnum, str.isspace, str.upper and
--             str.lower answer is the parameter `Unicode`; `Grows` says that a change of case makes no
--             text shorter.
--   Input     src/vocode/input_manager.py. State, Types, Publish and Queue have the methods of
--             InputManager. A future is a number that is done once it has a result or was cancelled.
--             The lock makes each method one step; wait_for_input is cut where it awaits, into
--             begin_wait, resume and abandon.
--   Select    src/vocode/tui/lib/components/select_list.py. State has the methods of
--             SelectListComponent, Run all of them as values.
--   Patch     src/vocode/patch/v4a.py. Data has the records, Section, Line and Parse the parser
--             parse_v4a_patch, Chunk _build_replacement_lines, Blanks the two functions on blank
--             context lines, Reverse _reverse_chunk, Find find_chunk_linear, Effective, Locate and
--             Build the parts of build_commits, Apply load_files, apply_commits, _reverse_patch and
--             process_patch. The functions that read, write and delete files are the parameter
--             `FileSystem`. Script has a chunk as the lines it keeps, deletes and adds,
--             and Printed its lines in a patch.
--   InputHistory  src/vocode/tui/history.py. State has the methods of HistoryManager, Calls all of them as
--             values. `none` stands for an IndexError, and in a new history for a file that cannot be
--             read or is no JSON; what the file holds is the parameter `Stored`.
--   TaskList  src/vocode/runstate/tasklist.py in State and src/vocode/tools/update_plan_tool.py in Tool.
--   Mcp       src/vocode/mcp/naming.py in Naming and src/vocode/mcp/tool_materialization.py in
--             Materialization. The caches of the service are the parameter `Service`.
--   ToolRound src/vocode/runner/tool_orchestrator.py. State has the plan, the answers of the user and the
--             end of a round, Execute the execution. The functions of the runner are the parameter
--             `Runner`, the execution of a call and asyncio.gather the parameter `Executor`.
--   Graph     Validation has Graph._validate_graph of src/vocode/models.py, Runtime the RuntimeGraph of
--             src/vocode/graph.py, Data the graph itself.
--   Prelude   Lists, numbers, texts and dictionaries (association lists in insertion order).
--
-- Ids are numbers, a text is its list of code points, and a value that the code only passes on is an
-- opaque number. The walks of the history run on fuel: one round more than there are steps, since
-- every round but the last meets a step that was not met before; the loop of _find_existing_ancestor
-- keeps no set of what it met, and its fuel is two more than the removed steps. `diverged` is the
-- outcome of a loop that uses all of its fuel. The loops of the editor recurse on the
-- rows or the columns that are left. The search for a chunk has fuel for two rounds, as its second
-- round has no blank context lines to drop; `out_of_rounds` is its outcome without fuel, apart from a
-- search that finds nothing.
--
-- Not modelled: in the history, _normalize_tree_state, the reversal of patches and the iterators over
-- pairs of messages; in the select list, rendering and the mouse; of patch errors the messages, hints
-- and excerpts; the task that saves the input history; the runner and its executors, the session
-- manager, the MCP client, the other tools, processes, persistence and the rest of the interface.
pub mod Prelude
pub mod Workflow
pub mod History
pub mod Editor
pub mod Input
pub mod Select
pub mod Patch
pub mod InputHistory
pub mod TaskList
pub mod Mcp
pub mod ToolRound
pub mod Graph
