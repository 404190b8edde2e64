-- ===== src/TestGenerator.antt =====
-- test_generator.py: test files for the executor.
pub mod Lines
pub mod Groups
pub mod FromTo
pub mod Links
pub mod Repeats
mod Tests
use krafters.Prelude.{
  ℕ, zero, suc, ◌+◌, ◌-◌, ◌≡◌, Bool, true, false, List, [], ◌∷◌, ◌++◌, map, if◌then◌else◌,
}
use krafters.Text.{Text, codes, str, replace}

-- str(Node(id))
unfoldable pub node_str : ℕ → Text
unfolding str
node_str id = str id

-- A NodeGroup has a list of its own, or uses the list of the class, which all groups without nodes
-- share. Each node is its text.
pub data NodeGroup : Type 0 where
  own : List Text → NodeGroup
  of_class : NodeGroup

abbrev pub all : Text
all = codes "all"

unfoldable pub new_group : List Text → NodeGroup
new_group [] = of_class
new_group (node ∷ nodes) = own (node ∷ nodes)

-- self.nodes, where `shared` is the list of the class
unfoldable pub nodes_of : List Text → NodeGroup → List Text
nodes_of shared (own nodes) = nodes
nodes_of shared of_class = shared

-- add: the list of the class, and the group.
unfoldable pub add : Text → List Text → NodeGroup → List Text × NodeGroup
add node shared (own nodes) = (shared, own (nodes ++ node ∷ []))
add node shared of_class = (shared ++ node ∷ [], of_class)

-- "".join of the nodes, with a blank between them
unfoldable pub joined : List Text → Text
joined [] = []
joined (node ∷ []) = node
joined (node ∷ next ∷ nodes) = node ++ b' ' ∷ joined (next ∷ nodes)

unfoldable pub group_str : List Text → NodeGroup → Text
unfolding joined nodes_of
group_str shared group = joined (nodes_of shared group)

-- A Test is the list of its lines.
abbrev pub Test : Type 0
Test = List Text

abbrev pub run_line : ℕ → Text
run_line n_op = codes "run " ++ str n_op

abbrev pub times_line : ℕ → Text
times_line times = str times ++ codes " times"

unfoldable pub run : ℕ → Test → Test
run n_op self = self ++ run_line n_op ∷ []

unfoldable pub reset : Test → Test
reset self = self ++ codes "reset" ∷ []

unfoldable pub from_to_command : Text → Text → Bool → Text → Text
from_to_command sources targets bidirectional netem_command =
    codes "from "
    ++ (sources
        ++ (codes " to "
            ++ (targets
                ++ ((if bidirectional then codes " bidirectional set " else codes " set ")
                    ++ netem_command))))

unfoldable pub set_rule : Text → Text → Text → Bool → Test → Test
unfolding from_to_command
set_rule rule sources targets bidirectional self =
    self ++ from_to_command sources targets bidirectional rule ∷ []

unfoldable pub set_delay : ℕ → Text → Text → Bool → Test → Test
unfolding set_rule
set_delay delay sources targets bidirectional self =
    set_rule (codes "delay " ++ (str delay ++ codes "ms")) sources targets bidirectional self

unfoldable pub set_loss : ℕ → Text → Text → Bool → Test → Test
unfolding set_rule
set_loss loss sources targets bidirectional self =
    set_rule (codes "loss " ++ (str loss ++ codes "%")) sources targets bidirectional self

unfoldable pub partition : Text → Text → Test → Test
unfolding set_loss
partition group1 group2 self = set_loss 100 group1 group2 true self

-- "\t{}".format(line) for each line, between "do" and "n times"
unfoldable pub indented : Test → Test
indented lines = map (λ line. 9 ∷ line) lines

unfoldable pub repeat : Test → ℕ → Test → Test
unfolding indented
repeat test times self = self ++ codes "do" ∷ (indented test ++ times_line times ∷ [])

unfoldable pub repeat_all : ℕ → Test → Test
unfolding indented
repeat_all times self = codes "do" ∷ (indented self ++ times_line times ∷ [])

-- for i in range(1, nodes_number+1), with so many nodes left
unfoldable pub on_each : ℕ → ℕ → Text → ℕ → Test → Test
unfolding reset set_rule run node_str
on_each zero i rule nop test = test
on_each (suc left) i rule nop test =
    on_each left (suc i) rule nop (run nop (set_rule rule all (node_str i) false (reset test)))

-- test_on_each_one: the lines that are printed, and the name of the file
unfoldable pub test_on_each_one : ℕ → Text → ℕ → Test
unfolding on_each
test_on_each_one nodes_number rule nop = on_each nodes_number 1 rule nop []

unfoldable pub file_name : ℕ → Text → Text → Text
unfolding replace
file_name nodes_number rule path =
    path
    ++ (replace (codes " ") (codes "_") rule
        ++ (codes "_each_" ++ (str nodes_number ++ codes "_nodes")))
