-- ===== src/TestGenerator/Tests.antt =====
-- The generator on concrete inputs.
use krafters.Prelude.{◌≡◌, refl, true, [], ◌∷◌, map, none, some}
use krafters.Text.{codes, str, rstrip, is_space, contains, strip_prefix}
use krafters.TestExecutor.Line.{read_line, command, run_command, times, open_do, lower}
use krafters.TestExecutor.Line
use krafters.TestGenerator.{
  run, reset, set_rule, set_delay, set_loss, partition, repeat, repeat_all, add, new_group,
  node_str, group_str, test_on_each_one, file_name,
}
use krafters.TestGenerator.Groups.{Ends, every}
use krafters.TestGenerator.Links.{link, read_line-generated}
use krafters.TestGenerator.Repeats.{Rejected, parse-repeat}

partition_line :
    partition (codes "1 2") (codes "3 rand") []
    ≡ codes "from 1 2 to 3 rand bidirectional set loss 100%" ∷ []
unfolding partition str
partition_line = refl

each_of_two :
    test_on_each_one 2 (codes "delay 100ms") 10
    ≡ codes "reset"
      ∷ codes "from all to 1 set delay 100ms"
      ∷ codes "run 10"
      ∷ codes "reset"
      ∷ codes "from all to 2 set delay 100ms"
      ∷ codes "run 10"
      ∷ []
unfolding test_on_each_one str
each_of_two = refl

name_of_file : file_name 5 (codes "delay 100ms") (codes "d/") ≡ codes "d/delay_100ms_each_5_nodes"
unfolding file_name str
name_of_file = refl

-- A node that is added to a group without nodes is in every such group.
shared_nodes :
    let (shared, group) = add (codes "2") [] (new_group []) in
    group_str shared (new_group []) ≡ codes "2"
unfolding add new_group group_str
shared_nodes = refl

parse-repeat_example :
    Rejected 3 (repeat (codes "reset" ∷ []) 5 []) × Rejected 3 (repeat_all 5 (codes "reset" ∷ []))
unfolding rstrip is_space
parse-repeat_example = parse-repeat 1 5 (codes "reset") [] b'r' (codes "eset") refl

-- From the nodes 1 and a random one to all.
abbrev two_nodes : Ends
two_nodes = Ends.group (some 1) (none ∷ [])

read_line-generated_example :
    (map read_line (
        partition (codes "1 rand") (codes "all") (
          set_loss 5 (codes "1 rand") (codes "all") true (
            set_delay 90 (codes "1 rand") (codes "all") true (
              set_rule
                (codes "rate 1mbit")
                (codes "1 rand")
                (codes "all")
                true
                (run 250 (reset []))))))
      ≡ command Line.reset
        ∷ command (run_command 250 (codes "no_name"))
        ∷ link two_nodes every (codes "rate 1mbit") true
        ∷ link two_nodes every (codes "delay 90ms") true
        ∷ link two_nodes every (codes "loss 5%") true
        ∷ link two_nodes every (codes "loss 100%") true
        ∷ [])
    × (read_line (codes "250 times") ≡ times 250)
    × (read_line (codes "do") ≡ open_do)
unfolding str lower contains strip_prefix rstrip is_space group_str new_group node_str
read_line-generated_example =
    read_line-generated 250 90 5 two_nodes every true b'r' (codes "ate 1mbit") refl refl refl
