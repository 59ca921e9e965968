-- ===== src/Odb/Prepare/Rebound.antt =====
-- A binding that is tested, and written again where it is stale, leads into the image as it stands.
use client_server_db.Prelude.{◌≡◌, refl, Bool, true, false, Bool-cases, inl, inr}
use client_server_db.Floats.{Floats}
use client_server_db.Odb.Traits.{Traits}
use client_server_db.Odb.Binding.{
  statement_select, statement_insert, statement_update, bind, id_bind,
}
use client_server_db.Odb.Statements.{Statements, is_stale}
use client_server_db.Odb.Statements.Synced.{IsSynced, rebound-IsFresh, kept-IsFresh, not_stale}
use client_server_db.Odb.Prepare.{
  bind_insert, bind_select, bind_id, bind_update, bind_update_id, note_id,
}

module _ {floats : Floats} (traits : Traits floats) where
  pub bind_insert-IsSynced :
      (s : Statements traits)
      → IsSynced traits s
      → IsSynced traits (bind_insert traits s)
        × ((bind_insert traits s).insert_image_binding.bind
            ≡ bind traits (bind_insert traits s).image statement_insert)
  unfolding bind_insert
  bind_insert-IsSynced s h =
      elim (Bool-cases
        (is_stale traits s.image.version s.insert_image_version s.insert_image_binding)) [
          | inl stale ↦ rw stale (
            record {
              insert =
                  (rebound-IsFresh traits statement_insert s.image s.insert_image_binding).later;
              update = h.update;
              select = h.select;
              ids = h.ids;
            },
            refl,
          )
          | inr kept ↦ rw kept (h, (kept-IsFresh traits kept h.insert).now)
        ]

  pub bind_select-IsSynced :
      (s : Statements traits)
      → IsSynced traits s
      → IsSynced traits (bind_select traits s)
        × ((bind_select traits s).select_image_binding.bind
            ≡ bind traits (bind_select traits s).image statement_select)
        × ((bind_select traits s).select_image_version ≡ (bind_select traits s).image.version)
  unfolding bind_select
  bind_select-IsSynced s h =
      elim (Bool-cases
        (is_stale traits s.image.version s.select_image_version s.select_image_binding)) [
          | inl stale ↦ rw stale (
            record {
              insert = h.insert;
              update = h.update;
              select =
                  (rebound-IsFresh traits statement_select s.image s.select_image_binding).later;
              ids = h.ids;
            },
            refl,
            refl,
          )
          | inr kept ↦ rw kept (
            h,
            (kept-IsFresh traits kept h.select).now,
            (not_stale traits s.image.version s.select_image_version s.select_image_binding kept).0,
          )
        ]

  pub bind_update-IsSynced :
      (s : Statements traits)
      → IsSynced traits s
      → IsSynced traits (bind_update traits s).0
        × ((bind_update traits s).0.update_image_binding.bind
            ≡ bind traits (bind_update traits s).0.image statement_update)
  unfolding bind_update
  bind_update-IsSynced s h =
      elim (Bool-cases
        (is_stale traits s.image.version s.update_image_version s.update_image_binding)) [
          | inl stale ↦ rw stale (
            record {
              insert = h.insert;
              update =
                  (rebound-IsFresh traits statement_update s.image s.update_image_binding).later;
              select = h.select;
              ids = h.ids;
            },
            refl,
          )
          | inr kept ↦ rw kept (h, (kept-IsFresh traits kept h.update).now)
        ]

  -- The binding of the id changes no more than itself.
  pub bind_id_lem :
      (s : Statements traits)
      → bind_id traits s ≡ record s {
        id_image_binding = (bind_id traits s).id_image_binding;
        id_image_version = (bind_id traits s).id_image_version;
      }
  unfolding bind_id
  bind_id_lem s =
      elim (Bool-cases (is_stale traits s.id_image.version s.id_image_version s.id_image_binding)) [
        | inl stale ↦ rw stale refl
        | inr kept ↦ rw kept refl
      ]

  pub bind_id-IsSynced :
      (s : Statements traits)
      → IsSynced traits s
      → IsSynced traits (bind_id traits s)
        × ((bind_id traits s).id_image_binding.bind ≡ id_bind traits (bind_id traits s).id_image)
  unfolding bind_id
  bind_id-IsSynced s h =
      elim (Bool-cases (is_stale traits s.id_image.version s.id_image_version s.id_image_binding)) [
        | inl stale ↦ rw stale (
          record { insert = h.insert; update = h.update; select = h.select; ids = λ _. refl },
          refl,
        )
        | inr kept ↦ rw kept (
          h,
          h.ids (not_stale traits s.id_image.version s.id_image_version s.id_image_binding kept).1,
        )
      ]

  -- An update's binding that leads into the image does so whatever version it is given.
  note_id-IsSynced :
      (u : Bool) (s : Statements traits)
      → s.update_image_binding.bind ≡ bind traits s.image statement_update
      → s.id_image_binding.bind ≡ id_bind traits s.id_image
      → IsSynced traits s
      → IsSynced traits (note_id traits u s)
        × ((note_id traits u s).update_image_binding.bind
            ≡ bind traits (note_id traits u s).image statement_update)
        × ((note_id traits u s).id_image_binding.bind
            ≡ id_bind traits (note_id traits u s).id_image)
  note_id-IsSynced true s same ids h = (h, same, ids)
  note_id-IsSynced false s same ids h = (
    record {
      insert = h.insert;
      update = record { no_later = h.update.no_later; leads = λ _ _. same };
      select = h.select;
      ids = h.ids;
    },
    same,
    ids,
  )

  pub bind_update_id-IsSynced :
      (s : Statements traits) (u : Bool)
      → s.update_image_binding.bind ≡ bind traits s.image statement_update
      → IsSynced traits s
      → IsSynced traits (bind_update_id traits (s, u))
        × ((bind_update_id traits (s, u)).update_image_binding.bind
            ≡ bind traits (bind_update_id traits (s, u)).image statement_update)
        × ((bind_update_id traits (s, u)).id_image_binding.bind
            ≡ id_bind traits (bind_update_id traits (s, u)).id_image)
  unfolding bind_update_id
  bind_update_id-IsSynced s u same h =
      elim (Bool-cases
        (is_stale traits s.id_image.version s.update_id_image_version s.id_image_binding)) [
          | inl stale ↦ rw stale (
              let b = bind_id-IsSynced s h in
              let s' = bind_id traits s in
              note_id-IsSynced u (record s' { update_id_image_version = s'.id_image.version })
                (rw (bind_id_lem s) same) b.1
                (record {
                  insert = b.0.insert;
                  update = b.0.update;
                  select = b.0.select;
                  ids = b.0.ids;
                }))
          | inr kept ↦ rw kept (
            h,
            same,
            h.ids
                (not_stale traits s.id_image.version s.update_id_image_version s.id_image_binding
                  kept).1,
          )
        ]

  -- The binding of a row that is selected changes no more than itself.
  pub bind_select_lem :
      (s : Statements traits)
      → bind_select traits s ≡ record s {
        select_image_binding = (bind_select traits s).select_image_binding;
        select_image_version = (bind_select traits s).select_image_version;
      }
  unfolding bind_select
  bind_select_lem s =
      elim (Bool-cases
        (is_stale traits s.image.version s.select_image_version s.select_image_binding)) [
          | inl stale ↦ rw stale refl
          | inr kept ↦ rw kept refl
        ]
