-- ===== src/Config/Tests.antt =====
-- Views at concrete inputs.
use simple_distributed_files.Prelude.{◌≡◌, refl, true, [], ◌∷◌, ◌++◌, Bytes, if◌then◌else◌, str_eq}
use simple_distributed_files.Text.Stream.{is_space}
use simple_distributed_files.Config.{
  Config, config_new, value, paxos_commit, add, Beat, fine, failure,
}
use simple_distributed_files.Config.Views.{add-paxos_commit}

abbrev node_a : Bytes
node_a = 49 ∷ []

abbrev node_b : Bytes
node_b = 50 ∷ []

abbrev config : Config
config = record (config_new node_a true) { myvid = 1; mems = node_a ∷ [] }

abbrev pair : Config
pair = record config { mems = node_a ∷ node_b ∷ [] }

abbrev two_nodes : Bytes
two_nodes = value (node_a ∷ node_b ∷ [])

add-paxos_commit_example :
    ((paxos_commit 2 two_nodes config).mems ≡ config.mems ++ node_b ∷ [])
    × ((paxos_commit 2 two_nodes config).myvid ≡ 2)
    × (config.mems ≡ config.mems)
unfolding add is_space
add-paxos_commit_example =
    add-paxos_commit node_b 1 2 config.mems two_nodes config ((refl, tt), tt) (refl, tt) refl

abbrev beats : Bytes → Beat
beats m = if str_eq m node_b then failure else fine
