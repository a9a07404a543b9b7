-- ===== src/Database/Indexes.antt =====
-- database/shard_manager.go and database/Index_definition.go: the indexes that a start of the shard managers
-- asks of the database. The driver is known by its answer to a request.
use mathlib.Core.List.{lookup}
use yaice.Base.{ℕ, ◌≡◌, refl, ap, ◌∙◌, List, [], ◌∷◌, ◌++◌, Option, none, some}
use yaice.Base.Lists.{All}
use yaice.Base.Assoc.{lookup-insert_self}
use yaice.Database.Shards.{
  ShardManager, new_shard_manager, Entity, CollectionManager, start_one, start_collects, start,
}
use yaice.Database.Shards.Registering.{or_registered, lookup-start_collects}
use yaice.Utils.Tool.{Text, text_discrete}

-- `K` is the type of the keys and `O` that of the options.
pub record IndexDefinition (K O : Type 0) : Type 0 where
  pub keys : K
  pub index_options : Option O

module _ {K O : Type 0} where
  -- The loop of `createIndexes`.
  unfoldable pub index_models : List (IndexDefinition K O) → List (K × Option O)
  index_models [] = []
  index_models (idx ∷ indexes) = (idx.keys, idx.index_options) ∷ index_models indexes

  -- `createIndexes`, with the answer of `CreateMany`.
  unfoldable pub create_indexes :
      {R : Type 0} → (List (K × Option O) → Option R) → List (IndexDefinition K O) → Option R
  unfolding index_models
  create_indexes create_many indexes = create_many (index_models indexes)

  -- What `NewShardManager` asks for: nothing where there is no index. It goes on after an error.
  unfoldable pub index_requests :
      Text → List (IndexDefinition K O) → List (Text × List (K × Option O))
  unfolding index_models
  index_requests collection [] = []
  index_requests collection (idx ∷ indexes) = (collection, index_models (idx ∷ indexes)) ∷ []

module _ {K O M C E : Type 0} where
  -- The requests of a turn of the loop of `Start`, with what the map of managers has at the name.
  unfoldable pub requests_one :
      Text
      → Entity (IndexDefinition K O)
      → Option (ShardManager M C E)
      → List (Text × List (K × Option O))
  unfolding index_requests
  requests_one name entity (some _) = []
  requests_one name entity none = index_requests name entity.indexes

  unfoldable pub start_requests :
      ℕ
      → ℕ
      → List (Text × Entity (IndexDefinition K O))
      → List (Text × ShardManager M C E)
      → List (Text × List (K × Option O))
  unfolding requests_one
  start_requests b q [] managers = []
  start_requests b q (c ∷ collects) managers =
      let found = lookup text_discrete c.0 managers in
      requests_one c.0 c.1 found ++ start_requests b q collects (start_one b q c.0 managers found)

  abbrev HasManager :
      List (Text × ShardManager M C E) → Text × Entity (IndexDefinition K O) → Type 0
  HasManager managers c = (m : ShardManager M C E) × (lookup text_discrete c.0 managers ≡ some m)

  start_one-HasManager :
      (b q : ℕ) (c : Text × Entity (IndexDefinition K O))
      (managers : List (Text × ShardManager M C E)) (o : Option (ShardManager M C E))
      → lookup text_discrete c.0 managers ≡ o
      → HasManager (start_one b q c.0 managers o) c
  unfolding start_one
  start_one-HasManager b q c managers (some m) e = (m, e)
  start_one-HasManager b q c managers none e = (
    new_shard_manager c.0 b q,
    lookup-insert_self text_discrete c.0 (new_shard_manager c.0 b q) managers,
  )

  start_collects-HasManager :
      (b q : ℕ) (collects : List (Text × Entity (IndexDefinition K O)))
      (c : Text × Entity (IndexDefinition K O)) (managers : List (Text × ShardManager M C E))
      → HasManager managers c
      → HasManager (start_collects b q collects managers) c
  start_collects-HasManager b q collects c managers (m, e) = (
    m,
    lookup-start_collects b q collects c.0 managers
        ∙ ap (λ o. or_registered c.0 b q o (lookup text_discrete c.0 collects)) e,
  )

  start_collects-All :
      (b q : ℕ) (collects : List (Text × Entity (IndexDefinition K O)))
      (managers : List (Text × ShardManager M C E))
      → All (HasManager (start_collects b q collects managers)) collects
  unfolding start_collects
  start_collects-All b q [] managers = tt
  start_collects-All b q (c ∷ collects) managers =
      let next = start_one b q c.0 managers (lookup text_discrete c.0 managers) in
      (
        start_collects-HasManager b q collects c next (start_one-HasManager b q c managers _ refl),
        start_collects-All b q collects next,
      )

  no_requests :
      (b q : ℕ) (collects : List (Text × Entity (IndexDefinition K O)))
      (managers : List (Text × ShardManager M C E))
      → All (HasManager managers) collects
      → start_requests b q collects managers ≡ []
  unfolding start_requests requests_one start_one
  no_requests b q [] managers all = refl
  no_requests b q (c ∷ collects) managers ((m, e), all) =
      ap
        (λ (o : Option (ShardManager M C E)).
          requests_one c.0 c.1 o ++ start_requests b q collects (start_one b q c.0 managers o))
        e
      ∙ no_requests b q collects managers all

  -- A second `Start` asks for no index: each collection that is registered has its manager.
  pub start_requests-start :
      (cm : CollectionManager (IndexDefinition K O) M C E)
      → start_requests cm.batch_size cm.queue_size cm.collects (start cm).managers ≡ []
  unfolding start
  start_requests-start cm =
      no_requests cm.batch_size cm.queue_size cm.collects _
        (start_collects-All cm.batch_size cm.queue_size cm.collects cm.managers)
