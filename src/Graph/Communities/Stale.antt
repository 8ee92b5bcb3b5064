-- ===== src/Graph/Communities/Stale.antt =====
-- Which community rows are left, and which members the entities show.
use local_graph_rag.Prelude.{
  ℕ, ◌≡◌, refl, sym, ap, ◌∙◌, ◌↔◌, Option, none, some, List, [], ◌∷◌, contains, In, nat_eq, list_eq,
  inl, inr,
}
use local_graph_rag.Prelude.Members.{In-of_keep, In-keep, contains-of_In, In-of_contains}
use local_graph_rag.Graph.Tables.{Entity, Community, Store}
use local_graph_rag.Graph.Integrity.{IsSound, statement-of_IsSound}
use local_graph_rag.Graph.Communities.{active_ids, drop_stale, delete_stale_communities}

active_ids-In :
    (entities : List Entity) (i : ℕ)
    → In i (active_ids entities)
    → (e : Entity) × (In e entities × (e.community ≡ some i))
unfolding active_ids
active_ids-In [] i m = elim m [ ]
active_ids-In (e ∷ es) i m = split (active_ids-In es i) e.community refl m
  where
    split :
        (In i (active_ids es) → (x : Entity) × (In x es × (x.community ≡ some i)))
        → (o : Option ℕ) → e.community ≡ o
        → In i (elim o [ none ↦ active_ids es | some j ↦ j ∷ active_ids es ])
        → (x : Entity) × (In x (e ∷ es) × (x.community ≡ some i))
    split later none own k = let (x, (there, of_x)) = later k in (x, (inr there, of_x))
    split later (some j) own (inl here) = (e, (inl refl, own ∙ ap some (sym here)))
    split later (some j) own (inr k) = let (x, (there, of_x)) = later k in (x, (inr there, of_x))

In-active_ids :
    (entities : List Entity) (e : Entity) (i : ℕ)
    → In e entities
    → e.community ≡ some i
    → In i (active_ids entities)
unfolding active_ids
In-active_ids [] e i m own = elim m [ ]
In-active_ids (f ∷ es) e i (inl here) own =
    rw (ap (λ (x : Entity). x.community) (sym here) ∙ own, In) (inl refl)
In-active_ids (f ∷ es) e i (inr there) own = split f.community (In-active_ids es e i there own)
  where
    split :
        (o : Option ℕ)
        → In i (active_ids es)
        → In i (elim o [ none ↦ active_ids es | some j ↦ j ∷ active_ids es ])
    split none k = k
    split (some j) k = inr k

-- On a store with sound references `delete_stale_communities` commits, the references stay sound, and
-- a community row is left exactly if it was there and some entity is assigned to it.
pub delete_stale-exact :
    (s : Store)
    → IsSound s
    → (s' : Store) × ((delete_stale_communities s ≡ some s')
        × (IsSound s'
            × ((c : Community)
                → In c s'.communities ↔ (
                    In c s.communities
                    × ((e : Entity) × (In e s.entities × (e.community ≡ some c.id)))))))
unfolding delete_stale_communities drop_stale
delete_stale-exact s sound =
    (drop_stale s, (statement-of_IsSound drop_stale s still, (still, λ c. (left c, right c))))
  where
    still : IsSound (drop_stale s)
    still = record {
      of_relationship = sound.of_relationship;
      of_link = sound.of_link;
      of_mention = sound.of_mention;
    }

    left :
        (c : Community)
        → In c (drop_stale s).communities
        → In c s.communities × ((e : Entity) × (In e s.entities × (e.community ≡ some c.id)))
    left c m =
        let (there, active) =
          In-of_keep (λ (d : Community). contains d.id (active_ids s.entities)) s.communities c m in
        (there, active_ids-In s.entities c.id (In-of_contains (active_ids s.entities) c.id active))

    right :
        (c : Community)
        → In c s.communities × ((e : Entity) × (In e s.entities × (e.community ≡ some c.id)))
        → In c (drop_stale s).communities
    right c (there, (e, (m, own))) =
        In-keep (λ (d : Community). contains d.id (active_ids s.entities)) s.communities c there
          (contains-of_In (active_ids s.entities) c.id (In-active_ids s.entities e c.id m own))
