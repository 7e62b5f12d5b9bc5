-- ===== src/Plugins/Instances.antt =====
-- Maps of extensions against the map of plugin instances (internal/plugin/manager.go).
use openspace_os_core.Base.{
  String, false, Option, none, some, List, [], ◌∷◌, str_eq, lookup, insert, erase, IsMap,
  lookup-insert, lookup-erase, insert-IsMap, ◌≡◌, refl, arith, eq_iff,
}
use openspace_os_core.Plugins.{PluginInstance, new_instance, ensured, ensure_instance, with_status}

-- Who has no instance has no extension here.
abbrev pub IsCovered : {V : Type 0} → List (String × PluginInstance) → List (String × V) → Type 0
IsCovered ps xs = (k : String) → lookup k ps ≡ none → lookup k xs ≡ none

pub lookup-ensured :
    (name k : String) (o : Option PluginInstance) (ps : List (String × PluginInstance))
    → lookup name ps ≡ o
    → lookup k (ensured name o ps) ≡ none
    → (str_eq name k ≡ false) × (lookup k ps ≡ none)
lookup-ensured name k (some p) ps e h = ground (arith, eq_iff name k)
lookup-ensured name k none ps e h = ground (arith, lookup-insert name k (new_instance name) ps)

pub ensured-IsMap :
    (name : String) (o : Option PluginInstance) (ps : List (String × PluginInstance))
    → IsMap ps
    → IsMap (ensured name o ps)
ensured-IsMap name (some p) ps h = h
ensured-IsMap name none ps h = insert-IsMap name _ ps h

module _ {V : Type 0} (name : String) (ps : List (String × PluginInstance))
    (xs : List (String × V)) where
  IsCovered-ensure : IsCovered ps xs → IsCovered (ensure_instance name ps) xs
  IsCovered-ensure h k e = h k (lookup-ensured name k _ ps refl e).1

  pub IsCovered-register :
      (v : V) → IsCovered ps xs → IsCovered (ensure_instance name ps) (insert name v xs)
  IsCovered-register v h k e =
      let (other, gone) = lookup-ensured name k _ ps refl e in
      ground (arith, lookup-insert name k v xs, h k gone)

  pub IsCovered-erase :
      IsMap ps → IsMap xs → IsCovered ps xs → IsCovered (erase name ps) (erase name xs)
  IsCovered-erase mp mx h k e =
      ground (arith, lookup-erase name k ps mp, lookup-erase name k xs mx, h k)

  IsCovered-insert : (p : PluginInstance) → IsCovered ps xs → IsCovered (insert name p ps) xs
  IsCovered-insert p h k e = ground (arith, lookup-insert name k p ps, h k)

pub lookup-with_status :
    (status k : String) (ps : List (String × PluginInstance))
    → lookup k (with_status status ps) ≡ none
    → lookup k ps ≡ none
lookup-with_status status k [] h = refl
lookup-with_status status k ((j, p) ∷ ps) h = ground (arith, lookup-with_status status k ps)

lookup-with_status-none :
    (status k : String) (ps : List (String × PluginInstance))
    → lookup k ps ≡ none
    → lookup k (with_status status ps) ≡ none
lookup-with_status-none status k [] h = refl
lookup-with_status-none status k ((j, p) ∷ ps) h =
    ground (arith, lookup-with_status-none status k ps)

pub with_status-IsMap :
    (status : String) (ps : List (String × PluginInstance))
    → IsMap ps
    → IsMap (with_status status ps)
with_status-IsMap status [] h = h
with_status-IsMap status ((k, p) ∷ ps) h =
    (lookup-with_status-none status k ps h.0, with_status-IsMap status ps h.1)
