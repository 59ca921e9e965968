-- ===== src/Odb/Object.antt =====
-- `object_traits_impl< ::machineinfo, id_pgsql >`: the operations on the rows. The callbacks of the
-- class are empty, and so are its caches and `load_`; `load_delayed` has nothing to load, since the
-- class points to no other.
use client_server_db.Prelude.{
  ℕ, Text, ◌++◌, Bool, true, false, Option, some, codes, ◌==◌, if◌then◌else◌,
}
use client_server_db.Prelude.Exec.{
  Exec, Outcome, ok, throws, pure, lift, ◌>>=◌, ◌>>◌, not_in_transaction, object_already_persistent,
  object_not_persistent,
}
use client_server_db.Floats.{Floats}
use client_server_db.Odb.Traits.{Traits}
use client_server_db.Odb.Image.{Object, changed, of_image, id_of_id_image}
use client_server_db.Odb.Binding.{statement_select, bind}
use client_server_db.Odb.Statements.{
  Statements, Driver, Fetched, success, no_data, truncated, rebound, persist_statement,
  persist_statement_types, find_statement, find_statement_types, update_statement,
  update_statement_types, erase_statement, query_statement, erase_query_statement,
}
use client_server_db.Odb.Prepare.{
  bind_select, prepare_insert, prepare_update, prepare_erase, prepare_find, grow_image,
}

module _ {floats : Floats} {traits : Traits floats} (driver : Driver traits) where
  open driver use {Db, Cursor, Query, Rows}

  -- The statements of the connection, and the connection.
  pub record Session : Type 0 where
    pub statements : Statements traits
    pub db : Db

  -- `transaction::current ()`
  unfoldable pub current_transaction : Exec Session (Unit {0})
  current_transaction s =
      if driver.in_transaction s.db then (ok tt, s) else (throws not_in_transaction, s)

  abbrev pub prepare : (Statements traits → Statements traits) → Exec Session (Unit {0})
  prepare f s = (ok tt, record s { statements = f s.statements })

  -- A call of the runtime on the statements as they stand.
  abbrev pub execute : {A : Type 0} → (Statements traits → Db → Outcome A × Db) → Exec Session A
  execute call s = let (r, d) = call s.statements s.db in (r, record s { db = d })

  -- The new id, through the image of ids.
  unfoldable pub inserted : Option (traits.Bigint × Bool) → Exec Session ℕ
  inserted Option.none s = (throws object_already_persistent, s)
  inserted (some (v, null)) s =
      let i = record s.statements.id_image { id_value = v; id_null = null } in
      (ok (id_of_id_image traits i), record s { statements = record s.statements { id_image = i } })

  -- `persist`: the object with its new id.
  unfoldable pub persist : Object floats → Exec Session (Object floats)
  unfolding current_transaction prepare_insert inserted
  persist obj = do
    current_transaction
    prepare (prepare_insert traits obj)
    answer ← execute (λ s d.
        driver.insert persist_statement persist_statement_types s.insert_image_binding.bind s.image
          s.id_image_binding.bind d)
    id ← inserted answer
    pure (record obj { id_ = id })

  -- `update`
  unfoldable pub update : Object floats → Exec Session (Unit {0})
  unfolding current_transaction prepare_update
  update obj = do
    current_transaction
    prepare (prepare_update traits obj)
    rows ← execute (λ s d.
        driver.update update_statement update_statement_types s.update_image_binding.bind s.image
          s.id_image_binding.bind s.id_image d)
    if rows == 0 then lift (throws object_not_persistent) else pure tt

  -- `erase (database&, const id_type&)`, and `erase` of an object.
  unfoldable pub erase : ℕ → Exec Session (Unit {0})
  unfolding current_transaction prepare_erase
  erase id = do
    current_transaction
    prepare (prepare_erase traits id)
    rows ← execute (λ s d. driver.delete erase_statement s.id_image_binding.bind s.id_image d)
    if rows == 1 then pure tt else lift (throws object_not_persistent)

  unfoldable pub erase_object : Object floats → Exec Session (Unit {0})
  unfolding erase
  erase_object obj = erase obj.id_

  -- The part of `find_` under `if (r == select_statement::truncated)`.
  unfoldable pub load_truncated : Cursor → Exec Session (Unit {0})
  unfolding grow_image
  load_truncated cursor s =
      let t = grow_image traits s.statements in
      (
        ok tt,
        record s {
          statements =
              if changed t.image.version t.select_image_version
              then (let b =
                    rebound traits (bind traits t.image statement_select) t.select_image_binding in
                  record t {
                    select_image_binding = b;
                    select_image_version = t.image.version;
                    image = driver.refetch cursor b.bind t.image t.select_image_truncated;
                  })
              else t;
        },
      )

  abbrev pub after_fetch : Cursor → Fetched → Exec Session Bool
  after_fetch cursor success = pure true
  after_fetch cursor no_data = pure false
  after_fetch cursor truncated = load_truncated cursor >> pure true

  -- `fetch`, which writes the image and the flags.
  unfoldable pub fetch_row : Cursor → Exec Session Fetched
  fetch_row cursor s =
      let t = s.statements in
      let (r, im, flags) =
        driver.fetch cursor t.select_image_binding.bind t.image t.select_image_truncated in
      (ok r, record s { statements = record t { image = im; select_image_truncated = flags } })

  -- `find_`
  unfoldable pub find_row : ℕ → Exec Session Bool
  unfolding prepare_find fetch_row load_truncated
  find_row id = do
    prepare (prepare_find traits id)
    cursor ← execute (λ s d.
        driver.select find_statement find_statement_types s.id_image_binding.bind s.id_image d)
    r ← fetch_row cursor
    after_fetch cursor r

  -- `statements_type::auto_lock l (sts);`, for the rest of a function: the body gets `l.locked ()`.
  abbrev pub with_lock : {A : Type 0} → (Bool → Exec Session A) → Exec Session A
  with_lock body s =
      let (held, got) = traits.auto_lock s.statements.lock in
      let (r, s') = body got (record s { statements = record s.statements { lock = held } }) in
      (
        r,
        record s' {
          statements = record s'.statements { lock = traits.unlock s'.statements.lock got };
        },
      )

  -- The object of the image, after a search that found a row.
  abbrev pub load_if : Bool → Exec Session (Option (Object floats))
  load_if true s = (ok (some (of_image traits s.statements.image)), s)
  load_if false s = (ok Option.none, s)

  -- What `find` answers: a null pointer, a loaded object, or one that a load in progress will fill.
  pub data Found : Type 0 where
    missing delayed : Found
    loaded : Object floats → Found

  abbrev pub found : Option (Object floats) → Found
  found Option.none = missing
  found (some obj) = loaded obj

  -- `find (database&, const id_type&)`
  unfoldable pub find : ℕ → Exec Session Found
  unfolding current_transaction find_row
  find id =
      current_transaction
      >> with_lock (λ got.
        if got
        then (do there ← find_row id; obj ← load_if there; pure (found obj))
        else pure delayed)

  -- `find (database&, const id_type&, object_type&)`: the object as it is filled, or none for
  -- false.
  unfoldable pub find_into : ℕ → Exec Session (Option (Object floats))
  unfolding current_transaction find_row
  find_into id = current_transaction >> with_lock (λ got. find_row id >>= load_if)

  -- `reload`
  unfoldable pub reload : Object floats → Exec Session (Option (Object floats))
  unfolding find_into
  reload obj = find_into obj.id_

  -- The text of a query: its clause behind a space, if it has one.
  unfoldable pub with_clause : Text → Query → Text
  with_clause text q = if driver.is_empty q then text else text ++ (codes " " ++ driver.clause q)

  -- `query`
  unfoldable pub query : Query → Exec Session Rows
  unfolding current_transaction bind_select
  query q = do
    current_transaction
    prepare (bind_select traits)
    execute (λ s d.
        driver.select_query query_statement.name (with_clause query_statement.text q) q
          s.select_image_binding.bind s.image d)

  -- `erase_query`
  unfoldable pub erase_query : Query → Exec Session ℕ
  unfolding current_transaction
  erase_query q = do
    current_transaction
    execute (λ s d.
        driver.delete_query erase_query_statement.name (with_clause erase_query_statement.text q) q
          d)
