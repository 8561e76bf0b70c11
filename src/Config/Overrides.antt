-- ===== src/Config/Overrides.antt =====
-- config/overrideConfigsHandler.go: the override files, read and merged.
use mx_chain_simulator_go.Common.{
  ◌≡◌, refl, List, [], ◌∷◌, ◌++◌, append-nil, append_assoc, Bytes, All, arith,
}
use mx_chain_simulator_go.Common.Outcome.{Error, Try, value, error}
use mx_chain_simulator_go.Config.{OverrideConfigs}

module _ {OverridableConfig : Type 0} where
  abbrev pub overrides : List OverridableConfig → OverrideConfigs OverridableConfig
  overrides values = record { overridable_config_toml_values = values }

  -- `core.LoadTomlFile` into an empty `OverrideConfigs`.
  module _ (load_toml_file : Bytes → Try (OverrideConfigs OverridableConfig)) where
    -- The loop, with what is merged so far.
    unfoldable pub merge_files :
        OverrideConfigs OverridableConfig → List Bytes → Try (OverrideConfigs OverridableConfig)
    merge_files merged_configs [] = value merged_configs
    merge_files merged_configs (filename ∷ filenames) = elim (load_toml_file filename) [
      | error e ↦ error e
      | value read_configs ↦
          merge_files
            (overrides (
              merged_configs.overridable_config_toml_values
              ++ read_configs.overridable_config_toml_values))
            filenames
    ]

    unfoldable pub read_all : List Bytes → Try (OverrideConfigs OverridableConfig)
    unfolding merge_files
    read_all filenames = merge_files (overrides []) filenames

    module _ (contents : Bytes → List OverridableConfig) where
      -- The file holds the values that `contents` gives for it.
      abbrev pub Holds : Bytes → Type 0
      Holds filename = load_toml_file filename ≡ value (overrides (contents filename))

      -- The values of the files, one file behind the other.
      abbrev pub all_values : List Bytes → List OverridableConfig
      all_values [] = []
      all_values (filename ∷ filenames) = contents filename ++ all_values filenames

      merge_files-all_values :
          (merged : List OverridableConfig) (filenames rest : List Bytes)
          → All Holds filenames
          → merge_files (overrides merged) (filenames ++ rest)
            ≡ merge_files (overrides (merged ++ all_values filenames)) rest
      unfolding merge_files
      merge_files-all_values merged [] rest _ = rw (append-nil merged) refl
      merge_files-all_values merged (f ∷ fs) rest (h, hs) = rw h (
          rw (merge_files-all_values (merged ++ contents f) fs rest hs)
            (rw (append_assoc merged (contents f) (all_values fs)) refl))

      -- If every file can be read, the values of all files are merged in the order of the files: those
      -- of a later file stand behind those of an earlier one.
      pub read_all-all_values :
          (filenames : List Bytes)
          → All Holds filenames
          → read_all filenames ≡ value (overrides (all_values filenames))
      unfolding read_all
      read_all-all_values filenames hs =
          let e = merge_files-all_values [] filenames [] hs in
          ground (arith, e, append-nil filenames)

      -- The first file that cannot be read ends the reading with its error, whatever stands behind it,
      -- and nothing of the files before it is returned.
      pub read_all_fails :
          (filenames rest : List Bytes) (filename : Bytes) (e : Error)
          → All Holds filenames
          → load_toml_file filename ≡ error e
          → read_all (filenames ++ filename ∷ rest) ≡ error e
      unfolding read_all
      read_all_fails filenames rest filename e hs bad =
          let split' = merge_files-all_values [] filenames (filename ∷ rest) hs in
          ground (arith, split', bad)
