-- ===== src/Boost.antt =====
-- What the program takes from boost's property trees. The library is not part of the repository:
-- its trees and the calls that the program makes on them are parameters, with no law assumed.
use client_server_db.Prelude.{Text, List, Option}

pub record PropertyTree : Type 1 where
  pub Tree : Type 0
  -- `read_xml` and `read_json` on the text of a file; none where they throw.
  pub read_xml : Text → Option Tree
  pub read_json : Text → Option Tree
  -- The children with their keys, in order: what a loop over a tree visits.
  pub children : Tree → List (Text × Tree)
  -- `it.second.data()`
  pub value : Tree → Text
  -- `t.get(path, default)` at strings.
  pub get : Tree → Text → Text → Text
  -- `t.get_child(path)`; none where it throws.
  pub get_child : Tree → Text → Option Tree
