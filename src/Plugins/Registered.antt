-- ===== src/Plugins/Registered.antt =====
-- Every extension that is registered has its plugin's instance (internal/plugin/manager.go).
use openspace_os_core.Base.{
  String, Bool, true, false, Option, none, some, List, [], ◌∷◌, str_eq, lookup, insert, IsMap,
  lookup-insert, lookup-erase, insert-IsMap, erase-IsMap, ◌≡◌, refl, arith, if◌then◌else◌, ◌⊎◌, inl,
  inr,
}
use openspace_os_core.Plugins.{
  PluginInstance, Manager, Manifest, ensure_instance, with_status, register_parser,
  register_adapter, register_subscriber, register_hook, unload, unloaded, start_all, stop_all,
}
use openspace_os_core.Plugins.Manifests.{ManifestError, loaded}
use openspace_os_core.Plugins.Instances.{
  IsCovered, lookup-ensured, ensured-IsMap, IsCovered-register, IsCovered-erase, lookup-with_status,
  with_status-IsMap,
}

pub record IsRegistered {P A S H : Type 0} (m : Manager P A S H) : Type 0 where
  pub parsers : IsCovered m.plugins m.parsers
  pub adapters : IsCovered m.plugins m.adapters
  pub subs : IsCovered m.plugins m.subs
  pub hooks : IsCovered m.plugins m.hooks
  pub maps : IsMap m.plugins × IsMap m.parsers × IsMap m.adapters × IsMap m.subs × IsMap m.hooks

-- What can be asked of a manager; `found` is an entry of a directory, as it was read.
pub data Operation (P A S H : Type 0) : Type 0 where
  add_parser : String → P → Operation P A S H
  add_adapter : String → A → Operation P A S H
  add_subscriber : String → S → Operation P A S H
  add_hook : String → H → Operation P A S H
  found : String → ManifestError ⊎ Manifest → Operation P A S H
  remove : String → Operation P A S H
  start : Operation P A S H
  halt : Operation P A S H

module _ {P A S H : Type 0} (show : ManifestError → String) where
  unfoldable pub perform : Operation P A S H → Manager P A S H → Manager P A S H
  perform (add_parser name p) m = register_parser name p m
  perform (add_adapter name a) m = register_adapter name a m
  perform (add_subscriber name s) m = register_subscriber name s m
  perform (add_hook name h) m = register_hook name h m
  perform (found fallback r) m = loaded show fallback r m
  perform (remove name) m = (unload name m).1
  perform start m = start_all m
  perform halt m = stop_all m

  unfoldable pub perform_all : List (Operation P A S H) → Manager P A S H → Manager P A S H
  perform_all [] m = m
  perform_all (o ∷ os) m = perform_all os (perform o m)

module _ {P A S H : Type 0} where
  IsRegistered-plugins :
      (m : Manager P A S H) (ps : List (String × PluginInstance))
      → IsMap ps
      → ((k : String) → lookup k ps ≡ none → lookup k m.plugins ≡ none)
      → IsRegistered m
      → IsRegistered (record m { plugins = ps })
  IsRegistered-plugins m ps is weaker i =
      let (_, b, c, d, e) = i.maps in
      record {
        parsers = λ k e. i.parsers k (weaker k e);
        adapters = λ k e. i.adapters k (weaker k e);
        subs = λ k e. i.subs k (weaker k e);
        hooks = λ k e. i.hooks k (weaker k e);
        maps = (is, b, c, d, e);
      }

  IsRegistered-ensure :
      (name : String) (m : Manager P A S H)
      → IsRegistered m
      → IsRegistered (record m { plugins = ensure_instance name m.plugins })
  IsRegistered-ensure name m i =
      IsRegistered-plugins m (ensure_instance name m.plugins)
        (ensured-IsMap name _ m.plugins i.maps.0)
        (λ k e. (lookup-ensured name k _ m.plugins refl e).1) i

  IsRegistered-insert :
      (name : String) (p : PluginInstance) (m : Manager P A S H)
      → IsRegistered m
      → IsRegistered (record m { plugins = insert name p m.plugins })
  IsRegistered-insert name p m i =
      IsRegistered-plugins m (insert name p m.plugins) (insert-IsMap name p m.plugins i.maps.0)
        (λ k e. ground (arith, lookup-insert name k p m.plugins)) i

  IsRegistered-status :
      (status : String) (m : Manager P A S H)
      → IsRegistered m
      → IsRegistered (record m { plugins = with_status status m.plugins })
  IsRegistered-status status m i =
      IsRegistered-plugins m (with_status status m.plugins)
        (with_status-IsMap status m.plugins i.maps.0)
        (λ k e. lookup-with_status status k m.plugins e) i

  unloaded-IsRegistered :
      (name : String) (m : Manager P A S H) (o : Option PluginInstance)
      → IsRegistered m
      → IsRegistered (unloaded name m o).1
  unloaded-IsRegistered name m none i = i
  unloaded-IsRegistered name m (some p) i =
      let (a, b, c, d, e) = i.maps in
      record {
        parsers = IsCovered-erase name m.plugins m.parsers a b i.parsers;
        adapters = IsCovered-erase name m.plugins m.adapters a c i.adapters;
        subs = IsCovered-erase name m.plugins m.subs a d i.subs;
        hooks = IsCovered-erase name m.plugins m.hooks a e i.hooks;
        maps = (
          erase-IsMap name m.plugins a,
          erase-IsMap name m.parsers b,
          erase-IsMap name m.adapters c,
          erase-IsMap name m.subs d,
          erase-IsMap name m.hooks e,
        );
      }

  module _ (show : ManifestError → String) where
    perform-IsRegistered :
        (o : Operation P A S H) (m : Manager P A S H)
        → IsRegistered m
        → IsRegistered (perform show o m)
    unfolding perform register_parser register_adapter register_subscriber register_hook unload
        start_all stop_all
    perform-IsRegistered (add_parser name p) m i =
        let j = IsRegistered-ensure name m i in
        let (a, b, c, d, e) = j.maps in
        record {
          parsers = IsCovered-register name m.plugins m.parsers p i.parsers;
          adapters = j.adapters;
          subs = j.subs;
          hooks = j.hooks;
          maps = (a, insert-IsMap name p m.parsers b, c, d, e);
        }
    perform-IsRegistered (add_adapter name x) m i =
        let j = IsRegistered-ensure name m i in
        let (a, b, c, d, e) = j.maps in
        record {
          parsers = j.parsers;
          adapters = IsCovered-register name m.plugins m.adapters x i.adapters;
          subs = j.subs;
          hooks = j.hooks;
          maps = (a, b, insert-IsMap name x m.adapters c, d, e);
        }
    perform-IsRegistered (add_subscriber name s) m i =
        let j = IsRegistered-ensure name m i in
        let (a, b, c, d, e) = j.maps in
        record {
          parsers = j.parsers;
          adapters = j.adapters;
          subs = IsCovered-register name m.plugins m.subs s i.subs;
          hooks = j.hooks;
          maps = (a, b, c, insert-IsMap name s m.subs d, e);
        }
    perform-IsRegistered (add_hook name h) m i =
        let j = IsRegistered-ensure name m i in
        let (a, b, c, d, e) = j.maps in
        record {
          parsers = j.parsers;
          adapters = j.adapters;
          subs = j.subs;
          hooks = IsCovered-register name m.plugins m.hooks h i.hooks;
          maps = (a, b, c, d, insert-IsMap name h m.hooks e);
        }
    perform-IsRegistered (found fallback (inl e)) m i = IsRegistered-insert fallback _ m i
    perform-IsRegistered (found fallback (inr f)) m i = IsRegistered-insert f.name _ m i
    perform-IsRegistered (remove name) m i = unloaded-IsRegistered name m _ i
    perform-IsRegistered start m i = IsRegistered-status _ m i
    perform-IsRegistered halt m i = IsRegistered-status _ m i

    -- Whatever is registered, loaded, unloaded, started and stopped from there: the maps have one
    -- entry for a name, and every name with an extension has a plugin instance.
    pub perform_all-IsRegistered :
        (os : List (Operation P A S H)) (m : Manager P A S H)
        → IsRegistered m
        → IsRegistered (perform_all show os m)
    unfolding perform_all
    perform_all-IsRegistered [] m i = i
    perform_all-IsRegistered (o ∷ os) m i =
        perform_all-IsRegistered os (perform show o m) (perform-IsRegistered o m i)

-- The name is gone, and every other name has what it had.
abbrev pub IsWithout : {V : Type 0} → String → List (String × V) → List (String × V) → Type 0
IsWithout name ys xs = (k : String) → lookup k ys ≡ (if str_eq name k then none else lookup k xs)

module _ {P A S H : Type 0} where
  abbrev pub Unloads :
      String → Manager P A S H → Option PluginInstance → Bool × Manager P A S H → Type 0
  Unloads name m none (done, u) = (done ≡ false) × (u ≡ m)
  Unloads name m (some p) (done, u) =
      (done ≡ true)
      × IsWithout name u.plugins m.plugins
      × IsWithout name u.parsers m.parsers
      × IsWithout name u.adapters m.adapters
      × IsWithout name u.subs m.subs
      × IsWithout name u.hooks m.hooks

  unloaded-Unloads :
      (name : String) (m : Manager P A S H) (o : Option PluginInstance)
      → IsRegistered m
      → Unloads name m o (unloaded name m o)
  unloaded-Unloads name m none i = (refl, refl)
  unloaded-Unloads name m (some p) i =
      let (a, b, c, d, e) = i.maps in
      (
        refl,
        λ k. lookup-erase name k m.plugins a,
        λ k. lookup-erase name k m.parsers b,
        λ k. lookup-erase name k m.adapters c,
        λ k. lookup-erase name k m.subs d,
        λ k. lookup-erase name k m.hooks e,
      )

  -- Unloading fails for a name without an instance, and changes nothing then; else the name is gone
  -- from each of the five maps, and every other name has what it had. (The maps are as they can be.)
  unload_lem :
      (name : String) (m : Manager P A S H)
      → IsRegistered m
      → Unloads name m (lookup name m.plugins) (unload name m)
  unfolding unload
  unload_lem name m i = unloaded-Unloads name m _ i
