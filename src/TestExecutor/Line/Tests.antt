-- ===== src/TestExecutor/Line/Tests.antt =====
-- Lines of the testing language and what `read_line` makes of them.
use krafters.Prelude.{◌≡◌, refl, true, [], ◌∷◌}
use krafters.Text.{codes}
use krafters.TestExecutor.Line.{
  read_line, command, modify_link_from_to, modify_random_link, reset, run_command, open_do, times,
  unknown, blank,
}

link_line :
    read_line (codes "from 1 rand to all bidirectional set delay 100ms")
    ≡ command (
        modify_link_from_to
          (codes "1" ∷ codes "rand" ∷ [])
          (codes "all" ∷ [])
          (codes " delay 100ms")
          true)
unfolding read_line
link_line = refl

random_link_line :
    read_line (codes "on 5 connections bidirectional set delay 1s\n")
    ≡ command (modify_random_link 5 (codes " delay 1s") true)
unfolding read_line
random_link_line = refl

run_line :
    read_line (codes "run 1000 delay_100ms") ≡ command (run_command 1000 (codes "delay_100ms"))
unfolding read_line
run_line = refl

tab_line : read_line (codes "\trun 1000") ≡ unknown
unfolding read_line
tab_line = refl

do_line_spaces : read_line (codes " do ") ≡ open_do
unfolding read_line
do_line_spaces = refl

times_line_twelve : read_line (codes "12 times") ≡ times 12
unfolding read_line
times_line_twelve = refl

blank_line : read_line (codes " \n") ≡ blank
unfolding read_line
blank_line = refl

reset_prefix : read_line (codes "resets") ≡ command reset
unfolding read_line
reset_prefix = refl
