-- ===== src/Configs/Tags.antt =====
-- pkg/proxy/configs/configsFetcher.go: the version of a repository in the build information.
use mx_chain_simulator_go.Common.{
  ◌≡◌, ◌⊎◌, inl, inr, refl, true, false, List, [], ◌∷◌, ◌++◌, Bytes, codes, All, arith,
  if◌then◌else◌,
}
use mx_chain_simulator_go.Go.Strings.{contains, has_prefix, split}
use mx_chain_simulator_go.Go.Strings.Laws.{Lacks, split_last, last_separator}

-- What is read of a `debug.Module`.
pub record Module : Type 0 where
  pub path : Bytes
  pub version : Bytes

-- `parts[len(parts)-1]`, of a split, which has a part at least.
abbrev pub last_part : Bytes → List Bytes → Bytes
last_part part [] = part
last_part part (p ∷ ps) = last_part p ps

unfoldable pub extract_version_or_commit : Bytes → Bytes
extract_version_or_commit version_str =
    if contains version_str (codes "-") then last_part [] (split version_str b'-') else version_str

-- The loop over the dependencies of the build.
unfoldable pub extract_tag : List Module → Bytes → Bytes
unfolding extract_version_or_commit
extract_tag [] repo = []
extract_tag (dep ∷ deps) repo =
    if contains repo dep.path then extract_version_or_commit dep.version else extract_tag deps repo

contains-dash : (s t : Bytes) → contains (s ++ b'-' ∷ t) (codes "-") ≡ true
unfolding contains has_prefix
contains-dash [] t = ground arith
contains-dash (c ∷ s) t = ground (arith, contains-dash s t)

contains_no_dash : (s : Bytes) → Lacks b'-' s → contains s (codes "-") ≡ false
unfolding contains has_prefix
contains_no_dash [] _ = refl
contains_no_dash (c ∷ s) (hc, hs) = ground (arith, contains_no_dash s hs)

last_part-append : (p t : Bytes) (ps : List Bytes) → last_part p (ps ++ t ∷ []) ≡ t
last_part-append p t [] = refl
last_part-append p t (q ∷ ps) = last_part-append q t ps

extract_behind_dash : (s t : Bytes) → Lacks b'-' t → extract_version_or_commit (s ++ b'-' ∷ t) ≡ t
unfolding extract_version_or_commit
extract_behind_dash s t ht =
    let (first, middle, e) = split_last s t b'-' ht in
    rw (contains-dash s t, e) (last_part-append first t middle)

-- A version with no dash is taken whole. Of any other version what stands behind its last dash is
-- taken: of a pseudo-version the commit, and of a pre-release only the last part of its name.
pub extract_version_or_commit-last_dash :
    (version : Bytes)
    → (Lacks b'-' version × (extract_version_or_commit version ≡ version))
      ⊎ ((before : Bytes) × (version ≡ before ++ b'-' ∷ extract_version_or_commit version)
          × Lacks b'-' (extract_version_or_commit version))
unfolding extract_version_or_commit
extract_version_or_commit-last_dash version = elim (last_separator version b'-') [
  | inl lacks ↦ inl (lacks, rw (contains_no_dash version lacks) refl)
  | inr (s, t, e, ht) ↦
      let taken : extract_version_or_commit version ≡ t = rw e (extract_behind_dash s t ht) in
      inr (s, rw taken e, rw taken ht)
]

-- The first dependency whose path stands in the repository's address gives the version, whatever
-- follows it.
pub extract_tag-first :
    (before after : List Module) (dep : Module) (repo : Bytes)
    → All (λ d. contains repo d.path ≡ false) before
    → contains repo dep.path ≡ true
    → extract_tag (before ++ dep ∷ after) repo ≡ extract_version_or_commit dep.version
unfolding extract_tag
extract_tag-first [] after dep repo _ h = ground arith
extract_tag-first (d ∷ before) after dep repo (hd, hds) h =
    ground (arith, extract_tag-first before after dep repo hds h)

-- A repository that is no dependency of the build has the empty version.
pub extract_tag_absent :
    (deps : List Module) (repo : Bytes)
    → All (λ d. contains repo d.path ≡ false) deps
    → extract_tag deps repo ≡ []
unfolding extract_tag
extract_tag_absent [] repo _ = refl
extract_tag_absent (d ∷ deps) repo (hd, hds) = ground (arith, extract_tag_absent deps repo hds)
