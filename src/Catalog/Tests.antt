-- ===== src/Catalog/Tests.antt =====
-- A catalog of one file.
use rdrive.Base.{codes, arith}
use rdrive.Catalog.{Catalog, empty_catalog, get, upsert, pushed}
use rdrive.Catalog.Laws.{IsConsistent, pushed-IsConsistent}

empty-IsConsistent : IsConsistent empty_catalog
unfolding get
empty-IsConsistent name ids e = absurd (ground arith)

one_file : Catalog
unfolding pushed upsert
one_file = pushed (codes "now") (codes "notes") (codes "id") empty_catalog

one_file-IsConsistent : IsConsistent one_file
unfolding one_file
one_file-IsConsistent =
    pushed-IsConsistent (codes "now") (codes "notes") (codes "id") empty_catalog empty-IsConsistent
