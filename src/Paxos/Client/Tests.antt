-- ===== src/Paxos/Client/Tests.antt =====
-- A client that adds two values while one waits.
use krafters.Prelude.{[], ◌∷◌, none}
use krafters.Text.{codes}
use krafters.Paxos.Node.{Node, new_node}
use krafters.Paxos.Messenger.{Address}

abbrev server : Address
server = (codes "127.0.0.1", 9001)

abbrev node : Node
node = new_node 1 (1 ∷ 2 ∷ 3 ∷ []) none
