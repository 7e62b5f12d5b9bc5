-- ===== src/Plugins.antt =====
-- The plugin manager: internal/plugin/manager.go and manifest.go. The four kinds of extension are
-- types; the file system and the YAML and JSON decoders are arguments of what reads manifests.
-- `range` visits a map in the order of its list.
pub mod Manifests
pub mod Instances
pub mod Registered
pub mod Globals
pub mod Broker
pub mod Tests
use Prim.Native.String.{compare}
use text.Mathlib.Text.{is_lt}
use openspace_os_core.Base.{
  String, Bool, true, false, Option, none, some, List, [], ◌∷◌, map, if◌then◌else◌, str_eq, lookup,
  insert, erase, ◌⊎◌, inl, inr,
}

pub record Manifest : Type 0 where
  pub name : String
  pub version : String
  pub description : String
  pub author : String
  pub extension_points : List String
  pub permissions : List String
  pub dependencies : List (String × String)
  pub entry_point : String

abbrev pub status_loaded : String
status_loaded = "loaded"

abbrev pub status_started : String
status_started = "started"

abbrev pub status_stopped : String
status_stopped = "stopped"

abbrev pub status_error : String
status_error = "error"

pub record PluginInstance : Type 0 where
  pub manifest : Manifest
  pub status : String
  pub error : String

-- `Manifest{Name: name}`
abbrev pub named : String → Manifest
named name = record {
  name = name;
  version = "";
  description = "";
  author = "";
  extension_points = [];
  permissions = [];
  dependencies = [];
  entry_point = "";
}

pub record Manager (P A S H : Type 0) : Type 0 where
  pub plugins : List (String × PluginInstance)
  pub parsers : List (String × P)
  pub adapters : List (String × A)
  pub subs : List (String × S)
  pub hooks : List (String × H)

abbrev pub new_manager : {P A S H : Type 0} → Manager P A S H
new_manager = record { plugins = []; parsers = []; adapters = []; subs = []; hooks = [] }

abbrev pub new_instance : String → PluginInstance
new_instance name = record { manifest = named name; status = status_loaded; error = "" }

abbrev pub ensured :
    String → Option PluginInstance → List (String × PluginInstance) → List (String × PluginInstance)
ensured name (some p) ps = ps
ensured name none ps = insert name (new_instance name) ps

abbrev pub ensure_instance :
    String → List (String × PluginInstance) → List (String × PluginInstance)
ensure_instance name ps = ensured name (lookup name ps) ps

abbrev pub with_status : String → List (String × PluginInstance) → List (String × PluginInstance)
with_status status ps = map (λ (k, p). (k, record p { status = status })) ps

-- `sort.Strings`
unfoldable pub insert_name : String → List String → List String
insert_name s [] = s ∷ []
insert_name s (t ∷ ts) =
    let rest = insert_name s ts in if is_lt (compare t s) then t ∷ rest else s ∷ t ∷ ts

unfoldable pub sort_names : List String → List String
sort_names [] = []
sort_names (s ∷ ss) = insert_name s (sort_names ss)

abbrev pub names_of {ℓ} : {V : Type ℓ} → List (String × V) → List String
names_of m = sort_names (map (λ (k, v). k) m)

-- `ListPlugins` sorts the instances by the name in the manifest.
unfoldable pub insert_instance : PluginInstance → List PluginInstance → List PluginInstance
insert_instance p [] = p ∷ []
insert_instance p (q ∷ qs) =
    let rest = insert_instance p qs in
    if is_lt (compare q.manifest.name p.manifest.name) then q ∷ rest else p ∷ q ∷ qs

unfoldable pub sort_instances : List (String × PluginInstance) → List PluginInstance
sort_instances [] = []
sort_instances ((k, p) ∷ ps) = insert_instance p (sort_instances ps)

module _ {P A S H : Type 0} where
  unfoldable pub register_parser : String → P → Manager P A S H → Manager P A S H
  register_parser name p m = record m {
    parsers = insert name p m.parsers;
    plugins = ensure_instance name m.plugins;
  }

  unfoldable pub register_adapter : String → A → Manager P A S H → Manager P A S H
  register_adapter name a m = record m {
    adapters = insert name a m.adapters;
    plugins = ensure_instance name m.plugins;
  }

  unfoldable pub register_subscriber : String → S → Manager P A S H → Manager P A S H
  register_subscriber name s m = record m {
    subs = insert name s m.subs;
    plugins = ensure_instance name m.plugins;
  }

  unfoldable pub register_hook : String → H → Manager P A S H → Manager P A S H
  register_hook name h m = record m {
    hooks = insert name h m.hooks;
    plugins = ensure_instance name m.plugins;
  }

  abbrev pub get_parser : String → Manager P A S H → Option P
  get_parser name m = lookup name m.parsers

  abbrev pub get_adapter : String → Manager P A S H → Option A
  get_adapter name m = lookup name m.adapters

  abbrev pub list_parsers : Manager P A S H → List String
  list_parsers m = names_of m.parsers

  abbrev pub list_adapters : Manager P A S H → List String
  list_adapters m = names_of m.adapters

  abbrev pub list_plugins : Manager P A S H → List PluginInstance
  list_plugins m = sort_instances m.plugins

  abbrev pub unloaded : String → Manager P A S H → Option PluginInstance → Bool × Manager P A S H
  unloaded name m none = (false, m)
  unloaded name m (some p) = (
    true,
    record {
      plugins = erase name m.plugins;
      parsers = erase name m.parsers;
      adapters = erase name m.adapters;
      subs = erase name m.subs;
      hooks = erase name m.hooks;
    },
  )

  -- `Unload`; false is its error.
  unfoldable pub unload : String → Manager P A S H → Bool × Manager P A S H
  unload name m = unloaded name m (lookup name m.plugins)

  unfoldable pub start_all : Manager P A S H → Manager P A S H
  start_all m = record m { plugins = with_status status_started m.plugins }

  unfoldable pub stop_all : Manager P A S H → Manager P A S H
  stop_all m = record m { plugins = with_status status_stopped m.plugins }

-- The three triggers: each hook is called, and an error is only logged. `W` is what hooks act on.
unfoldable pub trigger_hooks :
    {H W : Type 0} → (H → W → Option String × W) → List (String × H) → W → W
trigger_hooks call [] w = w
trigger_hooks call ((name, h) ∷ hs) w = trigger_hooks call hs (call h w).1
