-- ===== src/Plugins/Tests.antt =====
-- A manager with two plugins, and the theorems on it.
use openspace_os_core.Base.{ℕ, ◌≡◌, refl, String, List, [], ◌∷◌, str_eq, inl, inr}
use openspace_os_core.Plugins.{
  Manifest, Manager, new_manager, named, register_parser, register_hook, unload, start_all,
  insert_name, sort_names, list_parsers,
}
use openspace_os_core.Plugins.Manifests.{
  ManifestError, no_name, load_entries, load_manifest, validate_manifest, manifest_of,
  find_manifest, extension, has_slash, strip_ext, dir, file,
}
use openspace_os_core.Plugins.Registered.{
  Operation, add_parser, add_hook, found, remove, start, perform, perform_all, IsRegistered,
  perform_all-IsRegistered,
}
use openspace_os_core.Plugins.Globals.{GlobalRegistry}

abbrev show : ManifestError → String
show e = "bad"

-- Parsers and hooks are numbers.
abbrev Test : Type 0
Test = Manager ℕ ℕ ℕ ℕ

abbrev empty_manager : Test
empty_manager = new_manager

empty-IsRegistered : IsRegistered empty_manager
empty-IsRegistered = record {
  parsers = λ k e. refl;
  adapters = λ k e. refl;
  subs = λ k e. refl;
  hooks = λ k e. refl;
  maps = (tt, tt, tt, tt, tt);
}

abbrev test_operations : List (Operation ℕ ℕ ℕ ℕ)
test_operations =
    add_parser "tle" 1
    ∷ add_hook "audit" 2
    ∷ found "dir" (inl no_name)
    ∷ start
    ∷ remove "tle"
    ∷ add_parser "json" 3
    ∷ []

perform_all-IsRegistered_example : IsRegistered (perform_all show test_operations empty_manager)
perform_all-IsRegistered_example =
    perform_all-IsRegistered show test_operations empty_manager empty-IsRegistered

-- A plugin whose manifest could not be read counts as started as well.
failed_is_started :
    (perform_all show test_operations empty_manager).plugins
    ≡ ("audit", record { manifest = named "audit"; status = "started"; error = "" })
      ∷ ("dir", record { manifest = named "dir"; status = "started"; error = "bad" })
      ∷ ("json", record { manifest = named "json"; status = "loaded"; error = "" })
      ∷ []
unfolding perform_all perform register_parser register_hook start_all unload
failed_is_started = refl

abbrev two_parsers : Test
two_parsers = register_parser "b" 2 (register_parser "a" 1 empty_manager)

two_parsers-IsRegistered : IsRegistered two_parsers
unfolding perform_all perform
two_parsers-IsRegistered =
    perform_all-IsRegistered show (add_parser "a" 1 ∷ add_parser "b" 2 ∷ []) empty_manager
      empty-IsRegistered

names_test : list_parsers two_parsers ≡ "a" ∷ "b" ∷ []
unfolding sort_names insert_name register_parser
names_test = refl

abbrev test_globals : GlobalRegistry ℕ ℕ ℕ ℕ
test_globals = record {
  parsers = ("a", 7) ∷ ("c", 8) ∷ [];
  adapters = [];
  subs = [];
  hooks = ("h", 1) ∷ [];
}

abbrev good_manifest : Manifest
good_manifest = record (named "x") { version = "1"; entry_point = "bin" }

load_test :
    (load_entries
      (λ s. s)
      (λ p. inr good_manifest)
      (λ p. inl "no")
      (λ p. str_eq p "d/x/plugin.yml")
      show
      "d"
      (dir "x" ∷ dir "y" ∷ file "manifest.json" ∷ file "notes.txt" ∷ [])
      empty_manager).plugins
    ≡ ("x", record { manifest = good_manifest; status = "loaded"; error = "" })
      ∷ ("manifest", record { manifest = named "manifest"; status = "error"; error = "bad" })
      ∷ []
unfolding load_entries manifest_of find_manifest load_manifest validate_manifest extension has_slash
    strip_ext
load_test = refl
