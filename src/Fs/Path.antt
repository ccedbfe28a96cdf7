-- ===== src/Fs/Path.antt =====
-- snapfaas/src/fs/path.rs: a path is a sequence of names and facets, front first.
use faasten.Base.{String, Option, none, some, List, [], ◌∷◌, ◌++◌}
use faasten.Labels.{Labels, Buckle}

module _ ⦃L : Labels⦄ where
  pub data PathComponent : Type 0 where
    dscrp : String → PathComponent
    facet : Buckle → PathComponent

  pub record FilePath : Type 0 where
    pub components : List PathComponent

  abbrev pub root_path : FilePath
  root_path = record { components = [] }

  split_front : List PathComponent → Option (PathComponent × FilePath)
  split_front [] = none
  split_front (c ∷ cs) = some (c, record { components = cs })

  -- The front component, and the path without it.
  unfoldable pub pop_front : FilePath → Option (PathComponent × FilePath)
  unfolding split_front
  pop_front p = split_front p.components

  unfoldable pub drop_back : List PathComponent → List PathComponent
  drop_back [] = []
  drop_back (c ∷ []) = []
  drop_back (c ∷ d ∷ cs) = c ∷ drop_back (d ∷ cs)

  unfoldable pub parent : FilePath → Option FilePath
  parent p = elim (drop_back p.components) [
    | [] ↦ none
    | c ∷ cs ↦ some (record { components = c ∷ cs })
  ]

  unfoldable pub last : List PathComponent → Option PathComponent
  last [] = none
  last (c ∷ []) = some c
  last (c ∷ d ∷ cs) = last (d ∷ cs)

  abbrev name_of : Option PathComponent → Option String
  name_of none = none
  name_of (some (dscrp s)) = some s
  name_of (some (facet f)) = none

  unfoldable pub file_name : FilePath → Option String
  unfolding last
  file_name p = name_of (last p.components)

  unfoldable pub push_dscrp : String → FilePath → FilePath
  push_dscrp s p = record { components = p.components ++ dscrp s ∷ [] }
