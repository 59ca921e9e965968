-- ===== src/Odb/Prepare.antt =====
-- `object_traits_impl< ::machineinfo, id_pgsql >`: what the operations do in front of their
-- statements, and where a result was truncated.
pub mod Images
pub mod Rebound
pub mod Prepared
use client_server_db.Prelude.{
  ℕ, Text, List, [], ◌∷◌, ◌++◌, Bool, true, false, not, Option, some, codes, ◌==◌, ◌||◌,
  if◌then◌else◌,
}
use client_server_db.Prelude.Exec.{
  Exec, Outcome, ok, throws, fault, pure, modify, gets, lift, continue, ◌>>=◌, ◌>>◌,
  not_in_transaction, object_already_persistent, object_not_persistent,
}
use client_server_db.Floats.{Floats}
use client_server_db.Odb.Traits.{Traits}
use client_server_db.Odb.Image.{
  Object, IdImage, Image, changed, to_image, of_image, id_to_image, id_of_id_image,
}
use client_server_db.Odb.Binding.{
  statement_select, statement_insert, statement_update, bind, id_bind, grow, Flags,
}
use client_server_db.Odb.Statements.{
  Statement, Statements, Driver, Binding, Fetched, success, no_data, truncated, next_version,
  is_stale, rebound, persist_statement, persist_statement_types, find_statement,
  find_statement_types, update_statement, update_statement_types, erase_statement, query_statement,
  erase_query_statement,
}

module _ {floats : Floats} (traits : Traits floats) where
  -- `if (init (im, obj, …)) im.version++;`
  unfoldable pub write_image : Object floats → Statements traits → Statements traits
  unfolding to_image
  write_image obj s =
      let (im, grew) = to_image traits s.image obj in
      record s {
        image = if grew then record im { version = next_version traits im.version } else im;
      }

  -- `init (i, id);`
  unfoldable pub write_id : ℕ → Statements traits → Statements traits
  write_id id s = record s { id_image = id_to_image traits s.id_image id }

  -- The binding of the parameters of an insertion, written again where it is stale.
  unfoldable pub bind_insert : Statements traits → Statements traits
  bind_insert s =
      if is_stale traits s.image.version s.insert_image_version s.insert_image_binding
      then record s {
        insert_image_binding =
            rebound traits (bind traits s.image statement_insert) s.insert_image_binding;
        insert_image_version = s.image.version;
      }
      else s

  unfoldable pub bind_select : Statements traits → Statements traits
  bind_select s =
      if is_stale traits s.image.version s.select_image_version s.select_image_binding
      then record s {
        select_image_binding =
            rebound traits (bind traits s.image statement_select) s.select_image_binding;
        select_image_version = s.image.version;
      }
      else s

  unfoldable pub bind_id : Statements traits → Statements traits
  bind_id s =
      if is_stale traits s.id_image.version s.id_image_version s.id_image_binding
      then record s {
        id_image_binding = rebound traits (id_bind traits s.id_image) s.id_image_binding;
        id_image_version = s.id_image.version;
      }
      else s

  -- The two bindings of an update; the flag `u` says that the first was written.
  unfoldable pub bind_update : Statements traits → Statements traits × Bool
  bind_update s =
      if is_stale traits s.image.version s.update_image_version s.update_image_binding
      then (
        record s {
          update_image_binding =
              rebound traits (bind traits s.image statement_update) s.update_image_binding;
          update_image_version = s.image.version;
        },
        true,
      )
      else (s, false)

  -- `if (!u) imb.version++;`
  abbrev pub note_id : Bool → Statements traits → Statements traits
  note_id true s = s
  note_id false s = record s {
    update_image_binding = record {
      bind = s.update_image_binding.bind;
      version = next_version traits s.update_image_binding.version;
    };
  }

  unfoldable pub bind_update_id : Statements traits × Bool → Statements traits
  unfolding bind_id
  bind_update_id (s, u) =
      if is_stale traits s.id_image.version s.update_id_image_version s.id_image_binding
      then (let s' = bind_id s in
          note_id u (record s' { update_id_image_version = s'.id_image.version }))
      else s

  -- All that `persist` and `update` do in front of their statements.
  unfoldable pub prepare_insert : Object floats → Statements traits → Statements traits
  unfolding write_image bind_insert bind_id
  prepare_insert obj s = bind_id (bind_insert (write_image obj s))

  unfoldable pub prepare_update : Object floats → Statements traits → Statements traits
  unfolding write_image write_id bind_update bind_update_id
  prepare_update obj s = bind_update_id (bind_update (write_image obj (write_id obj.id_ s)))

  unfoldable pub prepare_erase : ℕ → Statements traits → Statements traits
  unfolding write_id bind_id
  prepare_erase id s = bind_id (write_id id s)

  unfoldable pub prepare_find : ℕ → Statements traits → Statements traits
  unfolding write_id bind_id bind_select
  prepare_find id s = bind_select (bind_id (write_id id s))

  -- `if (grow (im, …)) im.version++;`
  unfoldable pub grow_image : Statements traits → Statements traits
  unfolding grow
  grow_image s =
      let (im, t, grew) = grow traits s.image s.select_image_truncated in
      record s {
        image = if grew then record im { version = next_version traits im.version } else im;
        select_image_truncated = t;
      }
