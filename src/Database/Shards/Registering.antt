-- ===== src/Database/Shards/Registering.antt =====
-- database/shard_manager.go: the names under which collections are registered and started.
use mathlib.Core.List.{lookup}
use yaice.Base.{ℕ, ◌≡◌, refl, sym, ap, ◌∙◌, List, [], ◌∷◌, Option, none, some, ite}
use yaice.Base.Assoc.{lookup-insert}
use yaice.Database.Shards.{
  ShardManager, new_shard_manager, Entity, CollectionManager, start_one, start_collects, start,
}
use yaice.Utils.Tool.{Text, text_discrete}

module _ {I M C E : Type 0} where
  -- The manager that a name has, or a new one where its collection is registered.
  abbrev pub or_registered :
      Text → ℕ → ℕ → Option (ShardManager M C E) → Option (Entity I) → Option (ShardManager M C E)
  or_registered name batch_size queue_size (some m) entity = some m
  or_registered name batch_size queue_size none none = none
  or_registered name batch_size queue_size none (some _) =
      some (new_shard_manager name batch_size queue_size)

  lookup-start_one :
      (b q : ℕ) (name k : Text) (managers : List (Text × ShardManager M C E))
      (o : Option (ShardManager M C E)) (entity : Entity I)
      → lookup text_discrete name managers ≡ o
      → (other : Option (Entity I))
      → or_registered k b q (lookup text_discrete k (start_one b q name managers o)) other
        ≡ or_registered k b q
            (lookup text_discrete k managers)
            (ite (text_discrete k name) (some entity) other)
  unfolding start_one
  lookup-start_one b q name k managers (some m) entity e other =
      elim (text_discrete k name)
        as (λ d.
          or_registered k b q (lookup text_discrete k managers) other
          ≡ or_registered k b q (lookup text_discrete k managers) (ite d (some entity) other)) [
            | yes same ↦ found m (ap (λ n. lookup text_discrete n managers) same ∙ e)
            | no n ↦ refl
          ]
    where
      found :
          (m : ShardManager M C E)
          → lookup text_discrete k managers ≡ some m
          → or_registered k b q (lookup text_discrete k managers) other
            ≡ or_registered k b q (lookup text_discrete k managers) (some entity)
      found m e = rw e refl
  lookup-start_one b q name k managers none entity e other =
      ap (λ o. or_registered k b q o other)
        (lookup-insert text_discrete k name (new_shard_manager name b q) managers)
      ∙ elim (text_discrete k name)
          as (λ d.
            or_registered k b q
              (ite d (some (new_shard_manager name b q)) (lookup text_discrete k managers)) other
            ≡ or_registered k b q (lookup text_discrete k managers) (ite d (some entity) other)) [
              | yes same ↦
                  ap (λ n. some (new_shard_manager n b q)) (sym same)
                  ∙ ap (λ o. or_registered k b q o (some entity))
                      (sym (ap (λ n. lookup text_discrete n managers) same ∙ e))
              | no n ↦ refl
            ]

  pub lookup-start_collects :
      (b q : ℕ) (collects : List (Text × Entity I)) (k : Text)
      (managers : List (Text × ShardManager M C E))
      → lookup text_discrete k (start_collects b q collects managers)
        ≡ or_registered k b q (lookup text_discrete k managers) (lookup text_discrete k collects)
  unfolding start_collects lookup
  lookup-start_collects b q [] k managers =
      elim (lookup text_discrete k managers) as (λ o. o ≡ or_registered k b q o none) [
        | none ↦ refl
        | some m ↦ refl
      ]
  lookup-start_collects b q (c ∷ collects) k managers =
      lookup-start_collects b q collects k
        (start_one b q c.0 managers (lookup text_discrete c.0 managers))
      ∙ lookup-start_one b q c.0 k managers _ c.1 refl (lookup text_discrete k collects)

  -- After `Start`, a name has the manager that it had before or, where it had none and its collection is
  -- registered, a new one without executors; any other name has none.
  pub lookup-start :
      (k : Text) (cm : CollectionManager I M C E)
      → lookup text_discrete k (start cm).managers
        ≡ or_registered k cm.batch_size cm.queue_size
            (lookup text_discrete k cm.managers)
            (lookup text_discrete k cm.collects)
  unfolding start
  lookup-start k cm = lookup-start_collects cm.batch_size cm.queue_size cm.collects k cm.managers
