-- ===== src/Tests/Summaries.antt =====
-- Two runs over a graph with one community.
use mathlib.Core.List.Perm
use local_graph_rag.Prelude.{◌≡◌, refl, false, none, some, List, [], ◌∷◌}
use local_graph_rag.Prelude.Text.{codes, strip}
use local_graph_rag.Graph.Tables.{Entity, Community, Store}
use local_graph_rag.Graph.Communities.{
  write_communities, upsert_community, delete_stale_communities, get_entities_for_community,
}
use local_graph_rag.Graph.Summaries.{compute_member_hash, decimal}
use local_graph_rag.Graph.Summaries.Hash.{member_hash-of_perm}
use local_graph_rag.Graph.Summaries.Run.{
  Services, hash_of, prompt_of, Finished, summarize_all_communities,
}
use local_graph_rag.Graph.Summaries.Again.{second_run-asks_nothing}

abbrev services : Services
services = record {
  sha256 = λ t. codes "h";
  generate = λ p. some (codes " s");
  embed = λ t. some (codes "b");
  cluster = λ s. (codes "a" ∷ []) ∷ [];
}

abbrev entity : Entity
entity = record {
  id = codes "a";
  name = codes "A";
  type = none;
  description = none;
  community = none;
}

abbrev with_members : Entity → List Community → Store
with_members e rows = record {
  entities = e ∷ [];
  relationships = [];
  chunks = [];
  chunk_entities = [];
  communities = rows;
  extraction_cache = [];
  fingerprints = [];
  entity_mentions = [];
}

abbrev graph : Store
graph = with_members entity []

abbrev row : Community
row = record {
  id = 0;
  summary = codes "s";
  entity_ids = codes "a" ∷ [];
  member_hash = codes "h";
  embedding = codes "b";
}

abbrev summarized : Store
summarized = with_members (record entity { community = some 0 }) (row ∷ [])

abbrev first : Finished
first = record {
  totals = record { summarized_count = 1; skipped_count = 0; failed_count = 0 };
  store = summarized;
  asked = prompt_of 0 (with_members (record entity { community = some 0 }) []) ∷ [];
}

abbrev second : Finished
second = record {
  totals = record { summarized_count = 0; skipped_count = 1; failed_count = 0 };
  store = summarized;
  asked = [];
}

first_run : summarize_all_communities services false graph ≡ some first
unfolding summarize_all_communities write_communities delete_stale_communities
    get_entities_for_community upsert_community strip hash_of compute_member_hash
first_run = refl

second_run : summarize_all_communities services false summarized ≡ some second
unfolding summarize_all_communities write_communities delete_stale_communities
    get_entities_for_community hash_of compute_member_hash
second_run = refl

second_run-asks_nothing_example : second.asked ≡ []
second_run-asks_nothing_example =
    second_run-asks_nothing services (λ t. refl) (λ s t e f. refl) false graph first second
      first_run refl second_run

digits : decimal 1203 ≡ codes "1203"
unfolding decimal
digits = refl

abbrev other : Entity
other = record entity { id = codes "b" }

member_hash-of_perm_example :
    compute_member_hash (λ t. t) (entity ∷ other ∷ []) []
    ≡ compute_member_hash (λ t. t) (other ∷ entity ∷ []) []
member_hash-of_perm_example =
    member_hash-of_perm (λ t. t) (Perm.swap other entity []) (Perm.refl [])
