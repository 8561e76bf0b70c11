-- ===== src/Configs/Fetcher.antt =====
-- pkg/proxy/configs/configsFetcher.go, interface.go and git/fetcher.go: the folders of configurations
-- are fetched from the repositories, if they are not there.
pub mod Laws
use mx_chain_simulator_go.Common.{
  ⊤, Bool, true, false, Option, none, some, List, [], ◌∷◌, ◌++◌, Bytes, codes, if◌then◌else◌,
}
use mx_chain_simulator_go.Common.Outcome.{
  Error, message, error_text, Outcome, Action, pure, fail, lift, ◌>>=◌, ◌>>◌, Try, value,
}
use mx_chain_simulator_go.Go.Os
use mx_chain_simulator_go.Go.Os.{Node, FilePath, found, missing, below_file, stat}
use mx_chain_simulator_go.Configs.Tags.{Module, extract_tag}
use mx_chain_simulator_go.Configs.Copy.{copy_folder_with_all_files}

-- `GitHandler`
pub record GitHandler : Type 0 where
  pub clone : Bytes → FilePath → Action Node ⊤
  pub checkout : FilePath → Bytes → Action Node ⊤

-- What `CombinedOutput` returns: the output, and an error or nil.
pub record CommandResult : Type 0 where
  pub output : Bytes
  pub failure : Option Error

-- `fmt.Errorf("%s-%s", string(res), err.Error())`
abbrev pub command_error : CommandResult → Action Node ⊤
command_error res = elim res.failure [
  | none ↦ pure tt
  | some e ↦ fail (message (res.output ++ (codes "-" ++ error_text e)))
]

-- `gitFetcher`, over the command git, which is run in a directory (the root stands for the program's
-- own) with arguments. A path is an argument in the form that `path_text` gives it.
module _ (run_git : FilePath → List Bytes → Action Node CommandResult)
    (path_text : FilePath → Bytes) where
  unfoldable pub git_fetcher : GitHandler
  git_fetcher = record {
    clone = λ repo_url dest_dir.
        run_git [] (codes "clone" ∷ repo_url ∷ path_text dest_dir ∷ []) >>= command_error;
    checkout = λ repo_dir commit_hash_or_branch.
        run_git repo_dir (codes "checkout" ∷ commit_hash_or_branch ∷ []) >>= command_error;
  }

-- `fetcher`
pub record Fetcher : Type 0 where
  pub git_fetcher : GitHandler
  pub mx_chain_node_repo : Bytes
  pub mx_chain_proxy : Bytes

abbrev pub app_node : Bytes
app_node = codes "node"

abbrev pub app_proxy : Bytes
app_proxy = codes "proxy"

unfoldable pub new_configs_fetcher : Bytes → Bytes → GitHandler → Try Fetcher
new_configs_fetcher mx_chain_node_repo mx_chain_proxy git = value (record {
  git_fetcher = git;
  mx_chain_node_repo = mx_chain_node_repo;
  mx_chain_proxy = mx_chain_proxy;
})

-- Only "does not exist" counts as missing, and the error is always nil.
unfoldable pub folder_exists : FilePath → Node → Try Bool
folder_exists folder_path fs = elim (stat folder_path fs) [
  | missing ↦ value false
  | below_file ↦ value true
  | found _ ↦ value true
]

-- `os.TempDir()` is a parameter.
module _ (temp_dir : FilePath) where
  abbrev pub path_to_repo : FilePath
  path_to_repo = temp_dir ++ codes "repo" ∷ []

  abbrev pub path_to_repo_configs : Bytes → FilePath
  path_to_repo_configs app = path_to_repo ++ codes "cmd" ∷ app ∷ codes "config" ∷ []

  unfoldable pub fetch_config_folder : Fetcher → Bytes → Bytes → FilePath → Bytes → Action Node ⊤
  fetch_config_folder f repo version path_where_to_save_config app =
      f.git_fetcher.clone repo path_to_repo
      >> (f.git_fetcher.checkout path_to_repo version
          >> (copy_folder_with_all_files (path_to_repo_configs app) path_where_to_save_config
              >> λ fs. pure tt (Os.remove_all path_to_repo fs)))

  -- `FetchProxyConfigs` and `FetchNodeConfigs` do the same for a repository and a part of it.
  unfoldable pub fetch_if_missing : Fetcher → Bytes → List Module → FilePath → Bytes → Action Node ⊤
  unfolding folder_exists fetch_config_folder
  fetch_if_missing f repo deps path_where_to_put_configs app = do
    exists ← (λ fs. lift (folder_exists path_where_to_put_configs fs) fs)
    elim exists [
      | true ↦ pure tt
      | false ↦ fetch_config_folder f repo (extract_tag deps repo) path_where_to_put_configs app
    ]

  unfoldable pub fetch_proxy_configs : Fetcher → List Module → FilePath → Action Node ⊤
  unfolding fetch_if_missing
  fetch_proxy_configs f deps path = fetch_if_missing f f.mx_chain_proxy deps path app_proxy

  unfoldable pub fetch_node_configs : Fetcher → List Module → FilePath → Action Node ⊤
  unfolding fetch_if_missing
  fetch_node_configs f deps path = fetch_if_missing f f.mx_chain_node_repo deps path app_node
