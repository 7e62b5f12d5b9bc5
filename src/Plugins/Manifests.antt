-- ===== src/Plugins/Manifests.antt =====
-- Manifests and directories of them: internal/plugin/manifest.go and `LoadFromDirectory` of
-- manager.go. Paths and extensions are ASCII.
use Prim.Native.Char.{code}
use Prim.Native.String.{◌++◌ as ◌++ₛ◌}
use openspace_os_core.Base.{
  ◌==◌, String, Bool, false, not, ◌&&◌, ◌||◌, Option, none, some, List, [], ◌∷◌, if◌then◌else◌,
  str_eq, insert, ◌⊎◌, inl, inr,
}
use openspace_os_core.Plugins.{Manifest, Manager, named, status_loaded, status_error}

pub data ManifestError : Type 0 where
  no_name no_version no_entry_point : ManifestError
  unsupported : String → ManifestError
  unreadable : String → ManifestError

-- `Validate`.
unfoldable pub validate_manifest : Manifest → Option ManifestError
validate_manifest m =
    if str_eq m.name ""
    then some no_name
    else if str_eq m.version ""
    then some no_version
    else if str_eq m.entry_point ""
    then some no_entry_point
    else none

unfoldable pub has_slash : String → Bool
has_slash String.[] = false
has_slash (String.◌∷◌ c s) = code c == b'/' || has_slash s

-- `filepath.Ext`
unfoldable pub extension : String → String
extension String.[] = ""
extension (String.◌∷◌ c s) =
    let rest = extension s in
    if not (str_eq rest "")
    then rest
    else if code c == b'.' && not (has_slash s)
    then String.◌∷◌ c s
    else ""

-- `strings.TrimSuffix(name, filepath.Ext(name))`
unfoldable pub strip_ext : String → String
strip_ext String.[] = ""
strip_ext (String.◌∷◌ c s) =
    let rest = strip_ext s in
    if str_eq (extension s) "" && (code c == b'.' && not (has_slash s))
    then ""
    else String.◌∷◌ c rest

module _ {P A S H : Type 0} (show : ManifestError → String) where
  abbrev pub loaded : String → ManifestError ⊎ Manifest → Manager P A S H → Manager P A S H
  loaded fallback (inl e) m = record m {
    plugins =
        insert fallback
          (record { manifest = named fallback; status = status_error; error = show e }) m.plugins;
  }
  loaded fallback (inr f) m = record m {
    plugins = insert f.name (record { manifest = f; status = status_loaded; error = "" }) m.plugins;
  }

pub data DirEntry : Type 0 where
  dir : String → DirEntry
  file : String → DirEntry

module _ (to_lower : String → String) where
  abbrev pub is_manifest_file : String → Bool
  is_manifest_file name =
      let lower = to_lower name in
      str_eq lower "plugin.yaml" || (str_eq lower "plugin.yml" || str_eq lower "manifest.json")

  module _ (yaml json : String → String ⊎ Manifest) where
    abbrev pub validated : String ⊎ Manifest → ManifestError ⊎ Manifest
    validated (inl e) = inl (unreadable e)
    validated (inr m) = elim (validate_manifest m) [ none ↦ inr m | some e ↦ inl e ]

    -- `yaml` and `json` read and decode the file.
    unfoldable pub load_manifest : String → ManifestError ⊎ Manifest
    load_manifest path =
        let ext = to_lower (extension path) in
        if str_eq ext ".yaml" || str_eq ext ".yml"
        then validated (yaml path)
        else if str_eq ext ".json"
        then validated (json path)
        else inl (unsupported ext)

    abbrev pub joined : String → String → String
    joined d name = d ++ₛ ("/" ++ₛ name)

    module _ (exists : String → Bool) (show : ManifestError → String) where
      -- `findManifestInDir`.
      unfoldable pub find_manifest : String → List String → Option String
      find_manifest d [] = none
      find_manifest d (name ∷ names) =
          if exists (joined d name) then some (joined d name) else find_manifest d names

      -- The path of the manifest and the fallback name, unless the entry is passed over.
      unfoldable pub manifest_of : String → DirEntry → Option (String × String)
      manifest_of d (dir name) =
          elim (find_manifest (joined d name)
            ("plugin.yaml" ∷ "plugin.yml" ∷ "manifest.json" ∷ [])) [
              | none ↦ none
              | some path ↦ some (path, name)
            ]
      manifest_of d (file name) =
          if is_manifest_file name then some (joined d name, strip_ext name) else none

      module _ {P A S H : Type 0} where
        abbrev pub load_found : Option (String × String) → Manager P A S H → Manager P A S H
        load_found none m = m
        load_found (some (path, fallback)) m = loaded show fallback (load_manifest path) m

        unfoldable pub load_entries : String → List DirEntry → Manager P A S H → Manager P A S H
        load_entries d [] m = m
        load_entries d (e ∷ es) m = load_entries d es (load_found (manifest_of d e) m)
