-- ===== src/Graph/Summaries/Hash.antt =====
-- The hash of a community is that of its content.
use mathlib.Core.List.{Perm}
use mathlib.Core.List.Perm
use local_graph_rag.Prelude.{◌≡◌, ap₂, List, ◌++◌, ◌∷◌}
use local_graph_rag.Prelude.Text.{Str, codes, join}
use local_graph_rag.Graph.Tables.{Entity}
use local_graph_rag.Graph.Neighborhood.{Edge}
use local_graph_rag.Graph.Reads.Ordering.{sort-of_perm}
use local_graph_rag.Graph.Summaries.{entity_key, relationship_key, compute_member_hash}

-- The rows of a community in any order have one hash, whatever the digest.
pub member_hash-of_perm :
    (sha256 : Str → Str) {es es' : List Entity} {rs rs' : List Edge}
    → Perm es es'
    → Perm rs rs'
    → compute_member_hash sha256 es rs ≡ compute_member_hash sha256 es' rs'
unfolding compute_member_hash
member_hash-of_perm sha256 p q =
    ap₂ (λ (xs ys : List Str). sha256 (join (codes "\n") (xs ++ (codes "---" ∷ ys))))
      (sort-of_perm (Perm.map entity_key p)) (sort-of_perm (Perm.map relationship_key q))
