-- ===== src/Startup/OverrideFiles.antt =====
-- `determineOverrideConfigFiles` of cmd/chainsimulator/main.go: which override files are read.
use mx_chain_simulator_go.Common.{
  ◌≡◌, refl, Bool, true, false, ◌||◌, Bool-cases, inl, inr, List, [], ◌∷◌, Bytes, All, arith,
  if◌then◌else◌,
}
use mathlib.Core.List.{Memᴰ}
use mx_chain_simulator_go.Go.Strings.{contains, has_prefix, split}
use mx_chain_simulator_go.Go.Strings.Laws.{Lacks, join, split-join}
use mx_chain_simulator_go.Startup.Flags.{
  CliContext, node_override_configuration_file, node_override_default_filename,
  node_override_default_path,
}

-- The loop over the files: does one of their names contain that of the default file?
abbrev pub names_default : List Bytes → Bool
names_default [] = false
names_default (filename ∷ filenames) =
    contains filename node_override_default_filename || names_default filenames

unfoldable pub determine_override_config_files : CliContext → List Bytes
determine_override_config_files ctx =
    let override_files = split (ctx.global_string node_override_configuration_file.name) b',' in
    if names_default override_files
    then override_files
    else node_override_default_path ∷ override_files

names_default-all :
    (files : List Bytes)
    → ((f : Bytes) → Memᴰ f files → contains f node_override_default_filename ≡ false)
    → names_default files ≡ false
names_default-all [] none_names = refl
names_default-all (f ∷ files) none_names =
    rw (none_names f (Memᴰ.head refl)) (names_default-all files (λ g m. none_names g (Memᴰ.tail m)))

names_default-one :
    (files : List Bytes) (f : Bytes)
    → Memᴰ f files
    → contains f node_override_default_filename ≡ true
    → names_default files ≡ true
names_default-one [] f m names = elim m [ ]
names_default-one (f ∷ files) g (Memᴰ.head e) names = ground (arith, e, names)
names_default-one (f ∷ files) g (Memᴰ.tail m) names =
    ground (arith, names_default-one files g m names)

-- If the flag has names with no comma in them, separated by commas, then, in this order, these files
-- are read and no other where the name of the default file is in one of them, wherever it stands, and
-- the default file and then these where it is in none of them.
pub determine_override_config_files-join :
    (ctx : CliContext) (first : Bytes) (rest : List Bytes)
    → Lacks b',' first
    → All (Lacks b',') rest
    → ctx.global_string node_override_configuration_file.name ≡ join b',' first rest
    → ((f : Bytes)
        → Memᴰ f (first ∷ rest)
        → contains f (node_override_default_filename) ≡ true
        → determine_override_config_files ctx ≡ first ∷ rest)
      × (((f : Bytes) → Memᴰ f (first ∷ rest) → contains f (node_override_default_filename) ≡ false)
          → determine_override_config_files ctx ≡ node_override_default_path ∷ first ∷ rest)
unfolding determine_override_config_files
determine_override_config_files-join ctx first rest h hs e =
    let files = split-join b',' first rest h hs in
    (
      λ f m names. rw (e, files, names_default-one (first ∷ rest) f m names) refl,
      λ none_names. rw (e, files, names_default-all (first ∷ rest) none_names) refl,
    )

-- Whatever the flag holds, the default file is named among the files that are read.
pub determine_override_config_files_has_default :
    (ctx : CliContext) → names_default (determine_override_config_files ctx) ≡ true
unfolding determine_override_config_files contains has_prefix
determine_override_config_files_has_default ctx =
    elim (Bool-cases
      (names_default (split (ctx.global_string node_override_configuration_file.name) b','))) [
        | inl named ↦ ground (arith, named)
        | inr unnamed ↦ rw unnamed refl
      ]
