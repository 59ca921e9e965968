-- ===== src/Odb/Prepare/Prepared.antt =====
-- What the operations do in front of their statements keeps the invariant of the versions, and
-- leaves the bindings of the statement leading into the images as they stand.
use client_server_db.Prelude.{ℕ, ◌+◌, ◌^◌, ◌<◌, ◌≡◌, refl, arith, Bool-cases, inl, inr}
use client_server_db.Floats.{Floats}
use client_server_db.Odb.Traits.{Traits}
use client_server_db.Odb.Traits.Laws.{Laws}
use client_server_db.Odb.Image.{Object, Image, to_image}
use client_server_db.Odb.Binding.{
  statement_select, statement_insert, statement_update, bind, id_bind,
}
use client_server_db.Odb.Statements.{Statements, next_version}
use client_server_db.Odb.Statements.Synced.{IsSynced, IsBound-later, IsBound-alike, bind-to_image}
use client_server_db.Odb.Prepare.Rebound.{
  bind_insert-IsSynced, bind_select-IsSynced, bind_update-IsSynced, bind_update_id-IsSynced,
  bind_id-IsSynced, bind_id_lem, bind_select_lem,
}
use client_server_db.Odb.Prepare.{
  write_image, write_id, bind_insert, bind_id, prepare_insert, prepare_update, prepare_erase,
  prepare_find,
}

module _ {floats : Floats} (traits : Traits floats) where
  next_version_lem : (v : ℕ) → v + 1 < 2 ^ 64 → v < next_version traits v
  next_version_lem v h = omega (arith, h)

  -- Another image that is later, or that is bound alike.
  IsSynced-later :
      (s : Statements traits) (im : Image traits)
      → s.image.version < im.version
      → IsSynced traits s
      → IsSynced traits (record s { image = im })
  IsSynced-later s im lt h = record {
    insert = IsBound-later traits lt h.insert;
    update = IsBound-later traits lt h.update;
    select = IsBound-later traits lt h.select;
    ids = h.ids;
  }

  -- The image of ids may change: the binding of the id leads to the same members.
  pub write_id-IsSynced :
      (id : ℕ) (s : Statements traits) → IsSynced traits s → IsSynced traits (write_id traits id s)
  unfolding write_id id_bind
  write_id-IsSynced id s h = record {
    insert = h.insert;
    update = h.update;
    select = h.select;
    ids = h.ids;
  }

  pub prepare_erase-IsSynced :
      (id : ℕ) (s : Statements traits)
      → IsSynced traits s
      → IsSynced traits (prepare_erase traits id s)
        × ((prepare_erase traits id s).id_image_binding.bind
            ≡ id_bind traits (prepare_erase traits id s).id_image)
  unfolding prepare_erase
  prepare_erase-IsSynced id s h = bind_id-IsSynced traits _ (write_id-IsSynced id s h)

  pub prepare_find-IsSynced :
      (id : ℕ) (s : Statements traits)
      → IsSynced traits s
      → IsSynced traits (prepare_find traits id s)
        × ((prepare_find traits id s).id_image_binding.bind
            ≡ id_bind traits (prepare_find traits id s).id_image)
        × ((prepare_find traits id s).select_image_binding.bind
            ≡ bind traits (prepare_find traits id s).image statement_select)
        × ((prepare_find traits id s).select_image_version
            ≡ (prepare_find traits id s).image.version)
  unfolding prepare_find
  prepare_find-IsSynced id s h =
      let i = bind_id-IsSynced traits _ (write_id-IsSynced id s h) in
      let b = bind_select-IsSynced traits _ i.0 in
      (b.0, rw (bind_select_lem traits (bind_id traits (write_id traits id s))) i.1, b.1, b.2)

  module _ (laws : Laws traits) where
    pub write_image-IsSynced :
        (obj : Object floats) (s : Statements traits)
        → s.image.version + 1 < 2 ^ 64
        → IsSynced traits s
        → IsSynced traits (write_image traits obj s)
    unfolding write_image
    write_image-IsSynced obj s small h = elim (Bool-cases (to_image traits s.image obj).1) [
      | inl grew ↦ rw grew (IsSynced-later s _ (next_version_lem s.image.version small) h)
      | inr fits ↦ rw fits (record {
        insert =
            IsBound-alike traits refl (bind-to_image traits laws s.image obj statement_insert fits)
              h.insert;
        update =
            IsBound-alike traits refl (bind-to_image traits laws s.image obj statement_update fits)
              h.update;
        select =
            IsBound-alike traits refl (bind-to_image traits laws s.image obj statement_select fits)
              h.select;
        ids = h.ids;
      })
    ]

    -- In front of an INSERT, with bindings that follow the images and room for the version of the
    -- image to go up once: the parameters are bound to the image as it stands, also where a buffer
    -- has just moved, the new id is bound to the image of ids, and every binding still follows its
    -- image.
    pub prepare_insert-IsSynced :
        (obj : Object floats) (s : Statements traits)
        → s.image.version + 1 < 2 ^ 64
        → IsSynced traits s
        → IsSynced traits (prepare_insert traits obj s)
          × ((prepare_insert traits obj s).insert_image_binding.bind
              ≡ bind traits (prepare_insert traits obj s).image statement_insert)
          × ((prepare_insert traits obj s).id_image_binding.bind
              ≡ id_bind traits (prepare_insert traits obj s).id_image)
    unfolding prepare_insert
    prepare_insert-IsSynced obj s small h =
        let b = bind_insert-IsSynced traits _ (write_image-IsSynced obj s small h) in
        let i = bind_id-IsSynced traits _ b.0 in
        (i.0, rw (bind_id_lem traits (bind_insert traits (write_image traits obj s))) b.1, i.1)

    -- In front of an UPDATE, with bindings that follow the images and room for the version of the
    -- image to go up once: the parameters are bound to the image and to the image of ids as they
    -- stand, and every binding still follows its image.
    pub prepare_update-IsSynced :
        (obj : Object floats) (s : Statements traits)
        → s.image.version + 1 < 2 ^ 64
        → IsSynced traits s
        → IsSynced traits (prepare_update traits obj s)
          × ((prepare_update traits obj s).update_image_binding.bind
              ≡ bind traits (prepare_update traits obj s).image statement_update)
          × ((prepare_update traits obj s).id_image_binding.bind
              ≡ id_bind traits (prepare_update traits obj s).id_image)
    unfolding prepare_update write_id
    prepare_update-IsSynced obj s small h =
        let w =
          write_image-IsSynced obj (write_id traits obj.id_ s) small
            (write_id-IsSynced obj.id_ s h) in
        let b = bind_update-IsSynced traits _ w in bind_update_id-IsSynced traits _ _ b.1 b.0
