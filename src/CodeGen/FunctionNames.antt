-- ===== src/CodeGen/FunctionNames.antt =====
-- lib/CodeGen/CodeGenUtils.cpp: the names of the functions that code is generated for.
use program_partitioning_for.Base.{List, [], ◌∷◌, Option, none, some}
use program_partitioning_for.Texts.{String}
use program_partitioning_for.PartitionExtractor.{insert_text}
use program_partitioning_for.ProtoFile.Generator.{Outcome, done, undefined}

-- Functions::insert of each
unfoldable pub insert_texts : List String → List String → List String
unfolding insert_text
insert_texts [] set = set
insert_texts (s ∷ ss) set = insert_texts ss (insert_text s set)

-- parseFunctions of the lines of the file; a file that is not opened has none.
unfoldable pub parse_functions : List String → List String
unfolding insert_texts
parse_functions lines = insert_texts lines []

-- parseFunctionsFromStats: without the file it returns empty sets, and with it the end is reached without
-- a return.
unfoldable pub parse_functions_from_stats :
    Option (List String × List String) → Outcome (List String × List String)
parse_functions_from_stats none = done ([], [])
parse_functions_from_stats (some stats) = undefined
