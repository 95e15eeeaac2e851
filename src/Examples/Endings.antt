-- ===== src/Examples/Endings.antt =====
-- The loops of the replay on the log of four events, with more rounds than they need.
use lichtung.Prelude.{[], ◌∷◌, ◌≡◌, arith, replicate, false}
use lichtung.Extension.{drain, kahn, start, successors}
use lichtung.Extension.Ends.{kahn_ends}
use lichtung.Engine.{Search, walk, reach_from}
use lichtung.Engine.Ends.{search_ends}
use lichtung.Examples.Logs.{log, log_poset, log_built}

kahn_ends_example :
    ((kahn log_poset).heap ≡ [])
    × (drain log (successors log_poset.edges (replicate 4 [])) 9 (start log log_poset.edges)
        ≡ kahn log_poset)
kahn_ends_example = kahn_ends log log_poset 9 log_built (omega arith)

abbrev from_world : Search
from_world = record { seen = replicate 4 false; stack = 1 ∷ [] }

search_ends_example :
    ((walk (successors log_poset.edges (replicate 4 [])) 9 from_world).stack ≡ [])
    × ((walk (successors log_poset.edges (replicate 4 [])) 9 from_world).seen
        ≡ reach_from 4 (successors log_poset.edges (replicate 4 [])) 1)
search_ends_example = search_ends log log_poset 1 9 log_built (omega arith)
