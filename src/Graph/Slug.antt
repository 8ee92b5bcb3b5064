-- ===== src/Graph/Slug.antt =====
-- src/local_graph_rag/graph/store_utils.py
pub mod Idempotent
use local_graph_rag.Prelude.{
  ℕ, Bool, false, not, ◌&&◌, ◌||◌, ◌≡◌, refl, [], ◌∷◌, ◌++◌, leb, nat_eqb, if◌then◌else◌,
}
use local_graph_rag.Prelude.Text.{Str, codes, lower, strip, strip_of}

-- [a-z0-9]
unfoldable pub is_word : ℕ → Bool
is_word c = (leb 97 c && leb c 122) || (leb 48 c && leb c 57)

abbrev pub is_underscore : ℕ → Bool
is_underscore c = nat_eqb c 95

-- re.sub(r"[^a-z0-9]+", "_", s), where `in_run` says that the run before has its underscore
unfoldable pub collapse : Bool → Str → Str
unfolding is_word
collapse in_run [] = []
collapse in_run (c ∷ cs) =
    (if is_word c then c ∷ [] else if in_run then [] else 95 ∷ []) ++ collapse (not (is_word c)) cs

unfoldable pub slugify : Str → Str
unfolding collapse
slugify name = strip_of is_underscore (collapse false (strip (lower name)))

slugify_test : slugify (codes "  The Graph-Store (v2)! ") ≡ codes "the_graph_store_v2"
unfolding slugify lower strip
slugify_test = refl
