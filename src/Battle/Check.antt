-- ===== src/Battle/Check.antt =====
-- check.c and handle.h: the arguments of naval.c and its files, and what is said for each error.
use cprogramming.Prelude.{ℕ, suc, ◌≡◌, Bool, true, List, [], ◌∷◌, leb, ◌==◌, if◌then◌else◌}
use cprogramming.Battle.Text.{Thing}

abbrev pub success : ℕ
success = 0

abbrev pub unknown_err : ℕ
unknown_err = 150

-- The messages of handle.h, by the names that it gives to their texts.
pub data Message : Type 0 where
  parameter : Message
  missing_rules : Message
  missing_player_map : Message
  missing_cpu_map : Message
  missing_cpu_turns : Message
  file_process_rules : Message
  overlap_player_map : Message
  overlap_cpu_map : Message
  out_bound_player_map : Message
  out_bound_cpu_map : Message
  process_player_map : Message
  process_cpu_map : Message
  process_turns : Message
  player_quit : Message
  cpu_quit : Message
  unknown : Message

unfoldable pub handle_exit : ℕ → Message
handle_exit e =
    if e == 10
    then parameter
    else if e == 20
    then missing_rules
    else if e == 30
    then missing_player_map
    else if e == 31
    then missing_cpu_map
    else if e == 40
    then missing_cpu_turns
    else if e == 50
    then file_process_rules
    else if e == 60
    then overlap_player_map
    else if e == 70
    then overlap_cpu_map
    else if e == 80
    then out_bound_player_map
    else if e == 90
    then out_bound_cpu_map
    else if e == 100
    then process_player_map
    else if e == 110
    then process_cpu_map
    else if e == 120
    then process_turns
    else if e == 130
    then player_quit
    else if e == 140
    then cpu_quit
    else unknown

unfoldable pub what_error_file : ℕ → ℕ
what_error_file i =
    if i == 0
    then 20
    else if i == 1
    then 30
    else if i == 2
    then 31
    else if i == 3
    then 40
    else unknown_err

unfoldable pub okay_args : ℕ → ℕ → ℕ
okay_args count check = if leb check count then success else 10

-- The loop from file `i` on; `okay_file` is what `access` says of a file.
unfoldable pub okay_files_from : (okay_file : Thing → Bool) → ℕ → List Thing → ℕ
okay_files_from okay_file i [] = success
okay_files_from okay_file i (f ∷ files) =
    let rest = okay_files_from okay_file (suc i) files in
    if okay_file f then rest else what_error_file i

-- `files` are the arguments behind the name of the program.
unfoldable pub okay_files : (okay_file : Thing → Bool) → List Thing → ℕ
okay_files okay_file files = okay_files_from okay_file 0 files

abbrev pub AllOkay : (Thing → Bool) → List Thing → Type 0
AllOkay okay_file [] = Unit {0}
AllOkay okay_file (f ∷ files) = (okay_file f ≡ true) × AllOkay okay_file files
