-- ===== src/Naming/Targets.antt =====
-- src/ssh_target.rs, and src/path_util.rs as it is built for platforms other than Windows; a path is the
-- list of its components, and what `canonicalize` gives for a path is an argument.
use sshwarden.Base.{
  Bool, true, false, not, ◌&&◌, List, [], ◌∷◌, Option, none, some, if◌then◌else◌, Text, codes,
  text_eq, rsplit_once, path_join, is_absolute, Component, components, root_dir, cur_dir,
  parent_dir, normal,
}

-- The flags of `ssh` with a value.
abbrev pub ssh_value_taking_flags : Text
ssh_value_taking_flags = codes "BbcDEeFIiJLlmOopQRSWw"

unfoldable pub parse_ssh_target : Text → Text
unfolding rsplit_once
parse_ssh_target arg = elim (rsplit_once (codes "@") arg) [ some parts ↦ parts.1 | none ↦ arg ]

-- One round of the loop; the components that were pushed are held with the last one first.
unfoldable pub push_component : Bool → List Component → Component → List Component
push_component absolute normalized root_dir = root_dir ∷ normalized
push_component absolute normalized cur_dir = normalized
push_component absolute normalized (normal part) = normal part ∷ normalized
push_component absolute (normal part ∷ normalized) parent_dir = normalized
push_component absolute [] parent_dir = if absolute then [] else parent_dir ∷ []
push_component absolute (root_dir ∷ normalized) parent_dir =
    if absolute then root_dir ∷ normalized else parent_dir ∷ root_dir ∷ normalized
push_component absolute (cur_dir ∷ normalized) parent_dir =
    if absolute then cur_dir ∷ normalized else parent_dir ∷ cur_dir ∷ normalized
push_component absolute (parent_dir ∷ normalized) parent_dir =
    if absolute then parent_dir ∷ normalized else parent_dir ∷ parent_dir ∷ normalized

unfoldable pub push_components : Bool → List Component → List Component → List Component
unfolding push_component
push_components absolute normalized [] = normalized
push_components absolute normalized (c ∷ cs) =
    push_components absolute (push_component absolute normalized c) cs

-- The components of the normalized path, the last one first.
unfoldable pub normalize_path_components_for_safety : Text → List Component
unfolding push_components
normalize_path_components_for_safety path = push_components (is_absolute path) [] (components path)

-- `current_dir` may not be known.
unfoldable pub normalized_absolute_path_for_safety : Option Text → Text → List Component
unfolding normalize_path_components_for_safety
normalized_absolute_path_for_safety cwd path =
    if is_absolute path then normalize_path_components_for_safety path else elim cwd [
      | none ↦ normalize_path_components_for_safety path
      | some dir ↦ normalize_path_components_for_safety (path_join dir path)
    ]

unfoldable pub component_eq : Component → Component → Bool
component_eq root_dir root_dir = true
component_eq cur_dir cur_dir = true
component_eq parent_dir parent_dir = true
component_eq (normal a) (normal b) = text_eq a b
component_eq _ _ = false

unfoldable pub path_values_equal_for_safety : List Component → List Component → Bool
unfolding component_eq
path_values_equal_for_safety [] [] = true
path_values_equal_for_safety (a ∷ xs) (b ∷ ys) =
    component_eq a b && path_values_equal_for_safety xs ys
path_values_equal_for_safety _ _ = false

module _ (canonicalize : Text → Option Text) (cwd : Option Text) where
  unfoldable pub paths_equivalent_for_safety : Text → Text → Bool
  unfolding path_values_equal_for_safety normalized_absolute_path_for_safety
  paths_equivalent_for_safety a b =
      let normalized =
        path_values_equal_for_safety (normalized_absolute_path_for_safety cwd a)
          (normalized_absolute_path_for_safety cwd b) in
      elim (canonicalize a) [
        | none ↦ normalized
        | some a' ↦ elim (canonicalize b) [
          | none ↦ normalized
          | some b' ↦ path_values_equal_for_safety (components a') (components b')
        ]
      ]

  -- Whether the check lets the path pass.
  unfoldable pub ensure_managed_ssh_config_path_is_safe : Text → Text → Bool
  unfolding paths_equivalent_for_safety
  ensure_managed_ssh_config_path_is_safe managed user =
      not (paths_equivalent_for_safety managed user)
