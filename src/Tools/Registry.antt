-- ===== src/Tools/Registry.antt =====
-- The tools by name, and the databases by name (src/dag_doctor/tools/registry.py, connections.py and
-- factory.py). A dict is a list of entries in the order of insertion; what a tool runs and what an
-- engine is are parameters.
pub mod Defaults
pub mod Engines
use dag_doctor.Base.{
  ℕ, suc, String, str_eq, codes, Text, Bool, true, false, not, ◌&&◌, ◌||◌, Option, none, some,
  is_some, List, [], ◌∷◌, ◌++◌, map, any, find, length, sorted_set, if◌then◌else◌,
}

-- `RunnableTool`
pub record Tool {ℓ} (A : Type ℓ) : Type ℓ where
  pub name : String
  pub description : String
  pub action : A

module _ {ℓ} {A : Type ℓ} where
  -- `registry.get`; `none` is the `UnknownToolError`.
  unfoldable pub get : String → List (Tool A) → Option (Tool A)
  get name tools = find (λ (t : Tool A). str_eq t.name name) tools

  -- `registry.register`; `none` is the `UnknownToolError` of a name that is taken.
  unfoldable pub register : Tool A → List (Tool A) → Option (List (Tool A))
  unfolding get
  register tool tools = if is_some (get tool.name tools) then none else some (tools ++ tool ∷ [])

  -- `registry.names`
  unfoldable pub tool_names : List (Tool A) → List Text
  tool_names tools = sorted_set (map (λ (t : Tool A). codes t.name) tools)

  unfoldable pub go_on :
      Option (List (Tool A))
      → List (Tool A)
      → (List (Tool A) → List (Tool A) × Bool)
      → List (Tool A) × Bool
  go_on none known rest = (known, false)
  go_on (some more) known rest = rest more

  -- The loop of `register_default_tools`: the registry that it leaves, and whether it got through. A
  -- tool that is refused stops it, and those before it stay registered.
  unfoldable pub register_all : List (Tool A) → List (Tool A) → List (Tool A) × Bool
  unfolding register go_on
  register_all [] known = (known, true)
  register_all (tool ∷ tools) known =
      go_on (register tool known) known (λ more. register_all tools more)

-- The names of `build_tools`, in its order.
abbrev pub default_names : List String
default_names =
    "fetch_task_logs" ∷ "search_similar_incidents" ∷ "get_dag_run_history"
    ∷ "get_upstream_task_state" ∷ "get_dag_source" ∷ "inspect_table_schema"
    ∷ "compare_schema_snapshot" ∷ "profile_table" ∷ "check_connection_health" ∷ []

-- `build_tools`, from what each tool does and says of itself.
unfoldable pub build_tools {ℓ} : {A : Type ℓ} → (String → A) → (String → String) → List (Tool A)
build_tools make describe =
    map (λ name. record { name = name; description = describe name; action = make name })
      default_names

-- `register_default_tools`
unfoldable pub register_default_tools {ℓ} :
    {A : Type ℓ} → (String → A) → (String → String) → List (Tool A) → List (Tool A) × Bool
unfolding build_tools register_all
register_default_tools make describe known = register_all (build_tools make describe) known

pub record Named {ℓ} (A : Type ℓ) : Type ℓ where
  pub name : String
  pub held : A

unfoldable pub lookup {ℓ} : {A : Type ℓ} → String → List (Named A) → Option (Named A)
lookup name entries = find (λ entry. str_eq entry.name name) entries

-- `ConnectionRegistry`: the DSNs, the engines that are open, and all that it has created.
pub record Connections (E : Type 0) : Type 0 where
  pub dsns : List (Named Text)
  pub engines : List (Named E)
  pub created : List String

-- The engine, or the `ReadOnlyViolationError`.
pub record Answer (E : Type 0) : Type 0 where
  pub connections : Connections E
  pub given : Option E

module _ {E : Type 0} (create : Text → E) where
  unfoldable pub with_engine : String → Text → Connections E → Option (Named E) → Answer E
  with_engine name dsn c (some entry) = record { connections = c; given = some entry.held }
  with_engine name dsn c none = record {
    connections = record c {
      engines = c.engines ++ record { name = name; held = create dsn } ∷ [];
      created = c.created ++ name ∷ [];
    };
    given = some (create dsn);
  }

  unfoldable pub with_dsn : String → Connections E → Option (Named Text) → Answer E
  unfolding with_engine lookup
  with_dsn name c none = record { connections = c; given = none }
  with_dsn name c (some entry) = with_engine name entry.held c (lookup name c.engines)

  -- `ConnectionRegistry.engine`
  unfoldable pub engine : String → Connections E → Answer E
  unfolding with_dsn
  engine name c = with_dsn name c (lookup name c.dsns)

  -- `ConnectionRegistry.dispose`
  unfoldable pub dispose : Connections E → Connections E
  dispose c = record c { engines = [] }
