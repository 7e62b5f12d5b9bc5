-- ===== src/Plugins/Globals.antt =====
-- The global registry that plugins' init functions fill: `LoadGlobals` of internal/plugin/manager.go.
use openspace_os_core.Base.{
  String, Option, none, some, List, [], ◌∷◌, lookup, insert, IsMap, lookup-insert, ◌≡◌, refl, ap,
  ◌∙◌, arith, eq_iff,
}
use openspace_os_core.Plugins.{
  Manager, register_parser, register_adapter, register_subscriber, register_hook,
}

pub record GlobalRegistry (P A S H : Type 0) : Type 0 where
  pub parsers : List (String × P)
  pub adapters : List (String × A)
  pub subs : List (String × S)
  pub hooks : List (String × H)

module _ {P A S H : Type 0} where
  -- `RegisterParser` and its kin, which are functions of the package.
  unfoldable pub register_global_parser :
      String → P → GlobalRegistry P A S H → GlobalRegistry P A S H
  register_global_parser name p g = record g { parsers = insert name p g.parsers }

  unfoldable pub register_global_adapter :
      String → A → GlobalRegistry P A S H → GlobalRegistry P A S H
  register_global_adapter name a g = record g { adapters = insert name a g.adapters }

  unfoldable pub register_global_subscriber :
      String → S → GlobalRegistry P A S H → GlobalRegistry P A S H
  register_global_subscriber name s g = record g { subs = insert name s g.subs }

  unfoldable pub register_global_hook : String → H → GlobalRegistry P A S H → GlobalRegistry P A S H
  register_global_hook name h g = record g { hooks = insert name h g.hooks }

abbrev pub first_of : {V : Type 0} → Option V → Option V → Option V
first_of none b = b
first_of (some a) b = some a

-- `for k, v := range m { register(k, v) }`
unfoldable pub register_each : {M V : Type 0} → (String → V → M → M) → List (String × V) → M → M
register_each register [] m = m
register_each register ((k, v) ∷ kvs) m = register_each register kvs (register k v m)

module _ {P A S H : Type 0} where
  unfoldable pub load_globals : GlobalRegistry P A S H → Manager P A S H → Manager P A S H
  unfolding register_each
  load_globals g m = register_each register_hook g.hooks (
      register_each register_subscriber g.subs
        (register_each register_adapter g.adapters (register_each register_parser g.parsers m)))

  register_each-parsers :
      (k : String) (ps : List (String × P)) (m : Manager P A S H)
      → IsMap ps
      → lookup k (register_each register_parser ps m).parsers
        ≡ first_of (lookup k ps) (lookup k m.parsers)
  unfolding register_each register_parser
  register_each-parsers k [] m h = refl
  register_each-parsers k ((j, p) ∷ ps) m (new, h) = ground (
    arith,
    register_each-parsers k ps (register_parser j p m) h,
    lookup-insert j k p m.parsers,
    eq_iff j k,
    new,
  )

  -- The other loops leave the parsers.
  module _ {V : Type 0} (register : String → V → Manager P A S H → Manager P A S H)
      (keeps : (k : String) (v : V) (m : Manager P A S H)
        → (register k v m).parsers ≡ m.parsers) where
    register_each-keeps :
        (vs : List (String × V)) (m : Manager P A S H)
        → (register_each register vs m).parsers ≡ m.parsers
    unfolding register_each
    register_each-keeps [] m = refl
    register_each-keeps ((k, v) ∷ vs) m = register_each-keeps vs (register k v m) ∙ keeps k v m

  -- After loading, a parser is the global one of its name, where there is one, and else the one that
  -- the manager had; each name stands once in the global registry.
  pub load_globals-parsers :
      (k : String) (g : GlobalRegistry P A S H) (m : Manager P A S H)
      → IsMap g.parsers
      → lookup k (load_globals g m).parsers ≡ first_of (lookup k g.parsers) (lookup k m.parsers)
  unfolding load_globals register_adapter register_subscriber register_hook
  load_globals-parsers k g m h =
      let one = register_each register_parser g.parsers m in
      let two = register_each register_adapter g.adapters one in
      let three = register_each register_subscriber g.subs two in
      ap (lookup k) (
        register_each-keeps register_hook (λ _ _ _. refl) g.hooks three
        ∙ (register_each-keeps register_subscriber (λ _ _ _. refl) g.subs two
            ∙ register_each-keeps register_adapter (λ _ _ _. refl) g.adapters one))
      ∙ register_each-parsers k g.parsers m h
