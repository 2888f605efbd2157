-- ===== src/Examples/Registries.antt =====
-- The default tools in an empty registry, and the connections of the application.
use dag_doctor.Base.{◌≡◌, refl, String, Text, codes, true, false, [], ◌∷◌, ◌++◌, List}
use dag_doctor.Tools.Registry.{Tool, build_tools, register_default_tools, Connections, engine}
use dag_doctor.Tools.Registry.Defaults.{are_new, register_default_tools-once}
use dag_doctor.Tools.Registry.Engines.{IsServed, engine-IsServed}

abbrev make : String → String
make name = name

abbrev none_yet : List (Tool String)
none_yet = []

all_new : are_new none_yet (build_tools make make) ≡ true
unfolding build_tools
all_new = refl

register_default_tools-once_example :
    (register_default_tools make make none_yet ≡ (none_yet ++ build_tools make make, true))
    × (register_default_tools make make (none_yet ++ build_tools make make)
        ≡ (none_yet ++ build_tools make make, false))
register_default_tools-once_example = register_default_tools-once make make none_yet all_new

abbrev connections : Connections Text
connections = record {
  dsns =
      record { name = "airflow"; held = codes "postgresql://airflow" }
      ∷ record { name = "warehouse"; held = codes "postgresql://warehouse" }
      ∷ [];
  engines = [];
  created = [];
}

abbrev create : Text → Text
create dsn = dsn

engine-IsServed_example :
    IsServed create "warehouse" connections (engine create "warehouse" connections)
engine-IsServed_example = engine-IsServed create "warehouse" connections tt
