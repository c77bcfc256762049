-- ===== src/Patch/Tests.antt =====
-- Patches at concrete inputs.
use codeng.Prelude.{reverse, ◌≤◌, true, false, Option, some, List, [], ◌∷◌, ◌++◌, ◌≡◌, refl}
use codeng.Prelude.Texts
use codeng.Patch.Script.{Script, kept, changed, chunk_of, old_side, new_side}
use codeng.Patch.Exact.{patched_at, patched_at-script}
use codeng.Patch.Bounds.{find_chunk_linear-within}
use codeng.Patch.Fuel.{find_rounds-enough}
use codeng.Patch.Order.{sort_located-locate_chunks}
use codeng.Patch.Report.{process_patch-unreported}
use codeng.Patch.Locate.{locate_chunks, nothing_located, sort_located, starts_fall}
use codeng.Patch.Find.{find_rounds, ended}
use codeng.Patch.Apply.{FileSystem, process_patch}
use codeng.Prelude.Strings.{codes, join_lines}
use codeng.Prelude.{arith, map, none}
use codeng.Patch.Data.{update, PatchAction}
use codeng.Patch.Chunk.{is_blankish_line}
use codeng.Patch.Section.{new_chunk, anchor_item}
use codeng.Patch.Parse.{start_state, parse_lines}
use codeng.Patch.Script.{items_of, edits_of}
use codeng.Patch.Pushed.{push_script, IsSeparated}
use codeng.Patch.Printed.{printed, IsPrintable, within, parse_lines-push_script}
use codeng.Workflow.Data.{Text}
use codeng.Patch.Data.{Commit}
use codeng.Patch.Parse.{parse_v4a_patch}
use codeng.Patch.Build.{build_commits}
use codeng.Patch.Find.{find_chunk_linear}

-- one update of the file `f` with these lines
abbrev patch_text : List Text → Text
unfolding join_lines
patch_text section =
    join_lines (
      codes "*** Begin Patch"
      ∷ codes "*** Update File: f"
      ∷ (section ++ codes "*** End Patch" ∷ []))

abbrev new_contents : List Commit → List (Option Text)
new_contents [] = []
new_contents ([] ∷ cs) = new_contents cs
new_contents (((path, c) ∷ rest) ∷ cs) = c.new_content ∷ new_contents (rest ∷ cs)

-- what the file becomes
abbrev patched : List Text → List Text → List (Option Text)
unfolding parse_v4a_patch build_commits join_lines
patched section file =
    let files : List (Text × Text) = (codes "f", join_lines file) ∷ [] in
    new_contents (build_commits (parse_v4a_patch (patch_text section)).0 files).commits

abbrev lines_of : List Text → List (Option Text)
unfolding join_lines
lines_of ls = some (join_lines ls) ∷ []

-- a line is replaced behind its anchor
replace_line :
    patched
      (codes "@@ def a" ∷ codes " x" ∷ codes "-y" ∷ codes "+z" ∷ codes " w" ∷ [])
      (codes "x" ∷ codes "y" ∷ codes "w" ∷ codes "def a" ∷ codes "x" ∷ codes "y" ∷ codes "w" ∷ [])
    ≡ lines_of
        (codes "x" ∷ codes "y" ∷ codes "w" ∷ codes "def a" ∷ codes "x" ∷ codes "z" ∷ codes "w" ∷ [])
unfolding lines_of patched Texts.put Texts.get
replace_line = refl

-- Where blank lines are passed over before the items 1 and 3 of the pattern, an insertion at 2 comes
-- one line late.
insert_late :
    patched
      (codes " a" ∷ codes " b" ∷ codes "+x" ∷ codes " c" ∷ codes " d" ∷ [])
      (codes "a" ∷ [] ∷ codes "b" ∷ codes "c" ∷ [] ∷ codes "d" ∷ [])
    ≡ lines_of (codes "a" ∷ [] ∷ codes "b" ∷ codes "c" ∷ codes "x" ∷ [] ∷ codes "d" ∷ [])
unfolding lines_of patched Texts.put Texts.get
insert_late = refl

-- of two anchors in a row the first is lost
stacked_anchors :
    patched
      (codes "@@ class B" ∷ codes "@@ def a" ∷ codes "-y" ∷ codes "+z" ∷ [])
      (codes "def a" ∷ codes "y" ∷ codes "class B" ∷ codes "def a" ∷ codes "y" ∷ [])
    ≡ lines_of (codes "def a" ∷ codes "z" ∷ codes "class B" ∷ codes "def a" ∷ codes "y" ∷ [])
unfolding lines_of patched Texts.put Texts.get
stacked_anchors = refl

abbrev script : Script
script =
    kept (codes "x") ∷ changed (codes "y" ∷ []) (codes "z" ∷ codes "u" ∷ []) ∷ kept (codes "w") ∷ []

patched_at-script_example :
    patched_at (codes "v" ∷ (old_side script ++ codes "end" ∷ [])) (chunk_of script) 1
    ≡ some (codes "v" ∷ (new_side script ++ codes "end" ∷ []))
patched_at-script_example = patched_at-script script (codes "v" ∷ []) (codes "end" ∷ [])

abbrev file : List Text
file = codes "x" ∷ codes "y" ∷ [] ∷ codes "w" ∷ codes "x" ∷ codes "y" ∷ codes "w" ∷ []

find_chunk_linear-within_example : (2 ≤ 4) × (4 ≤ 7) × (7 ≤ 7)
unfolding chunk_of find_chunk_linear
find_chunk_linear-within_example =
    find_chunk_linear-within file (chunk_of script) 2 4 7
      (codes "x" ∷ codes "z" ∷ codes "u" ∷ codes "w" ∷ []) refl

find_rounds-enough_example :
    find_rounds 7 file (chunk_of script) 5 ≡ ended (find_chunk_linear file (chunk_of script) 5)
find_rounds-enough_example = find_rounds-enough 5 file (chunk_of script) 5

sort_located-locate_chunks_example :
    let found =
      reverse
        (locate_chunks file
          (codes "f")
          (chunk_of script ∷ chunk_of script ∷ [])
          nothing_located).located in
    (starts_fall found ≡ false) × (sort_located found ≡ found)
sort_located-locate_chunks_example =
    sort_located-locate_chunks file (codes "f") (chunk_of script ∷ chunk_of script ∷ [])

-- files as a dictionary, on which every call succeeds
abbrev Files : Type 0
Files = List (Text × Text)

abbrev memory : FileSystem Files
unfolding Texts.get Texts.put
memory = record {
  open_fn = Texts.get;
  write_fn = λ path t disk. (true, Texts.put path t disk);
  delete_fn = λ path disk. (true, Texts.put path [] disk);
}

-- the only block is not in the file
abbrev misses : Text
misses = patch_text (codes "-q" ∷ codes "+r" ∷ [])

abbrev disk : Files
unfolding join_lines
disk = (codes "f", join_lines file) ∷ []

process_patch-unreported_example : (process_patch memory misses false disk).disk ≡ disk
unfolding process_patch memory patch_text disk
process_patch-unreported_example = process_patch-unreported memory misses false disk refl

script-IsPrintable : IsPrintable script
unfolding IsPrintable is_blankish_line
script-IsPrintable = (λ h. absurd (ground arith), (λ h. absurd (ground arith), tt))

script-IsSeparated : IsSeparated script
unfolding IsSeparated
script-IsSeparated = (tt, tt, tt)

abbrev empty_action : PatchAction
empty_action = record { type = update; chunks = []; move_path = none }

parse_lines-push_script_example :
    (parse_lines 3
        (printed script)
        (within (start_state []) (codes "f") empty_action (new_chunk 3 (codes "def a" ∷ [])))
      ≡ within
          (start_state [])
          (codes "f")
          empty_action
          (push_script script (new_chunk 3 (codes "def a" ∷ []))))
    × ((push_script script (new_chunk 3 (codes "def a" ∷ []))).chunk ≡ record {
      items = map anchor_item (codes "def a" ∷ []) ++ items_of script;
      edits = edits_of 0 script;
      start_line = some 3;
    })
parse_lines-push_script_example =
    parse_lines-push_script (start_state []) (codes "f") empty_action script (codes "def a" ∷ []) 3
      3 script-IsPrintable script-IsSeparated
