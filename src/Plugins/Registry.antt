-- ===== src/Plugins/Registry.antt =====
-- The class ExporterRegistry of py2fw/plugins/registry.py. A class of exporters is the instance it
-- makes.
use py2fw.Common.{
  String, Option, none, some, List, [], ◌∷◌, Dict, get, insert, keys, if◌then◌else◌, ◌==◌,
  String_eq, sorted_texts,
}
use py2fw.Plugins.Base.{Exporter}

abbrev pub ExporterRegistry : Type 0
ExporterRegistry = Dict String Exporter

-- `none` is the ValueError of an exporter without a name.
unfoldable pub register : Exporter → ExporterRegistry → Option ExporterRegistry
unfolding insert
register exporter registry =
    if exporter.name == "" then none else some (insert exporter.name exporter registry)

-- `none` is the KeyError of an unknown target.
unfoldable pub create : String → ExporterRegistry → Option Exporter
unfolding get
create name registry = get name registry

unfoldable pub registered_names : ExporterRegistry → List String
unfolding sorted_texts
registered_names registry = sorted_texts (keys registry)

unfoldable pub register_exporters : List Exporter → ExporterRegistry → Option ExporterRegistry
unfolding register
register_exporters [] registry = some registry
register_exporters (exporter ∷ exporters) registry = elim (register exporter registry) [
  | none ↦ none
  | some more ↦ register_exporters exporters more
]
