-- ===== src/Migrations/Tests.antt =====
-- The migrations at concrete scripts; the schema is the list of the statements that were run.
use messaging_gateway.Prelude.{
  String, Option, none, some, List, [], ◌∷◌, ◌++◌, ◌≡◌, refl, str_eq, if◌then◌else◌,
}
use messaging_gateway.Migrations.{MigrationScript, Database, finished, failed, run, interrupted}
use messaging_gateway.Migrations.History.{
  Start, runs, dies, start_all, given_by, Replays, start_all-Replays,
}

abbrev exec : String → List String → Option (List String)
exec sql schema = if str_eq sql "bad" then none else some (schema ++ (sql ∷ []))

abbrev script : String → String → MigrationScript
script name sql = record { name = name; checksum = "0"; sql = sql }

abbrev scripts : List MigrationScript
scripts = script "001" "a" ∷ script "002" "b" ∷ []

abbrev broken : List MigrationScript
broken = script "001" "a" ∷ script "002" "bad" ∷ []

abbrev empty : Database (List String)
empty = record { schema = []; recorded = [] }

stops_at_bad : (run exec broken empty).1 ≡ failed "002"
unfolding run
stops_at_bad = refl

abbrev starts : List Start
starts = dies 1 scripts ∷ runs broken ∷ runs scripts ∷ []

all_applied : (start_all exec starts empty).schema ≡ "a" ∷ "b" ∷ []
unfolding start_all run interrupted
all_applied = refl

start_all-Replays_example : Replays exec (given_by starts) [] (start_all exec starts empty)
start_all-Replays_example = start_all-Replays exec [] starts

first_run : (run exec scripts empty).1 ≡ finished ("001" ∷ "002" ∷ []) []
unfolding run
first_run = refl
