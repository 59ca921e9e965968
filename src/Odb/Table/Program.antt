-- ===== src/Odb/Table/Program.antt =====
-- What the server and the runtime do with the program's own statements and bindings.
use client_server_db.Prelude.{◌≡◌, ◌∙◌, List, some, if◌then◌else◌}
use client_server_db.Prelude.Exec.{ok, throws, database_exception}
use client_server_db.Floats.{Floats}
use client_server_db.Odb.Traits.{Traits}
use client_server_db.Odb.Image.{Object, IdImage, Image, of_image, id_of_id_image}
use client_server_db.Odb.Binding.{
  statement_select, statement_insert, statement_update, Bind, bind, id_bind, Flags,
}
use client_server_db.Odb.Statements.{
  Driver, persist_statement, persist_statement_types, find_statement, find_statement_types,
  update_statement, update_statement_types, erase_statement,
}
use client_server_db.Odb.Statements.Texts.{statements_lem}
use client_server_db.Odb.Table.{
  Server, Inserted, Selected, Answers, IsWritten, IsReady, count, replace, remove, object,
}

module _ {floats : Floats} {traits : Traits floats} {driver : Driver traits}
    (server : Server driver) where
  open driver use {Db, Cursor}
  open server use {rows, answers, row}

  pub insert_lem :
      (bs : List (Bind traits)) (im : Image traits) (ids : List (Bind traits))
      (idi : IdImage traits) (d : Db)
      → bs ≡ bind traits im statement_insert
      → ids ≡ id_bind traits idi
      → let r = driver.insert persist_statement persist_statement_types bs im ids d in
        Inserted driver (of_image traits im).info (rows d) (rows r.1) r.0
        × (driver.in_transaction r.1 ≡ driver.in_transaction d)
  insert_lem bs im ids idi d h h' =
      let l = statements_lem traits im idi in
      server.insert_law persist_statement persist_statement_types bs im ids d l.4 l.10 (h ∙ l.0)
        (h' ∙ l.3)

  pub update_lem :
      (bs : List (Bind traits)) (im : Image traits) (ids : List (Bind traits))
      (idi : IdImage traits) (d : Db)
      → bs ≡ bind traits im statement_update
      → ids ≡ id_bind traits idi
      → let r = driver.update update_statement update_statement_types bs im ids idi d in
        let id = id_of_id_image traits idi in
        (r.0 ≡ (if answers d then ok (count (rows d id)) else throws database_exception))
        × (rows r.1 ≡ (if answers d then replace id (of_image traits im).info (rows d) else rows d))
        × (driver.in_transaction r.1 ≡ driver.in_transaction d)
  update_lem bs im ids idi d h h' =
      let l = statements_lem traits im idi in
      server.update_law update_statement update_statement_types bs im ids idi d l.5 l.11 (h ∙ l.1)
        (h' ∙ l.3)

  -- The lemma is about no image: any will do for the bindings of the id.
  pub delete_lem :
      (im : Image traits) (ids : List (Bind traits)) (idi : IdImage traits) (d : Db)
      → ids ≡ id_bind traits idi
      → let r = driver.delete erase_statement ids idi d in
        let id = id_of_id_image traits idi in
        (r.0 ≡ (if answers d then ok (count (rows d id)) else throws database_exception))
        × (rows r.1 ≡ (if answers d then remove id (rows d) else rows d))
        × (driver.in_transaction r.1 ≡ driver.in_transaction d)
  delete_lem im ids idi d h =
      let l = statements_lem traits im idi in
      server.delete_law erase_statement ids idi d l.8 (h ∙ l.3)

  pub select_lem :
      (im : Image traits) (ids : List (Bind traits)) (idi : IdImage traits) (d : Db)
      → ids ≡ id_bind traits idi
      → let r = driver.select find_statement find_statement_types ids idi d in
        let id = id_of_id_image traits idi in
        Selected driver row (answers d) (object id (rows d id)) r.0
        × (rows r.1 ≡ rows d)
        × (driver.in_transaction r.1 ≡ driver.in_transaction d)
  select_lem im ids idi d h =
      let l = statements_lem traits im idi in
      server.select_law find_statement find_statement_types ids idi d l.7 l.12 (h ∙ l.3)

  pub fetch_lem :
      (idi : IdImage traits) (c : Cursor) (bs : List (Bind traits)) (im : Image traits)
      (t : Flags traits)
      → bs ≡ bind traits im statement_select
      → Answers traits (row c) (driver.fetch c bs im t)
        × IsWritten traits im (driver.fetch c bs im t).1
  fetch_lem idi c bs im t h =
      let l = statements_lem traits im idi in server.fetch_law c bs im t (h ∙ l.2)

  pub refetch_lem :
      (idi : IdImage traits) (c : Cursor) (bs : List (Bind traits)) (im : Image traits)
      (t : Flags traits) (o : Object floats)
      → bs ≡ bind traits im statement_select
      → row c ≡ some o
      → IsReady traits im t o
      → (of_image traits (driver.refetch c bs im t) ≡ o)
        × IsWritten traits im (driver.refetch c bs im t)
  refetch_lem idi c bs im t o h at ready =
      let l = statements_lem traits im idi in server.refetch_law c bs im t o (h ∙ l.2) at ready
