-- ===== src/Odb/Prepare/Images.antt =====
-- What the operations write to the images in front of their statements: the bindings are written
-- beside them, and an image stands for the object or the id that was given.
use client_server_db.Prelude.{
  ℕ, ◌+◌, ◌^◌, ◌<◌, ◌≤◌, ◌≡◌, refl, ap, ◌∙◌, Bool, true, false, arith, Bool-cases, inl, inr,
}
use client_server_db.Floats.{Floats}
use client_server_db.Odb.Traits.{Traits}
use client_server_db.Odb.Traits.Laws.{Laws}
use client_server_db.Odb.Image.{
  Object, Image, IdImage, to_image, of_image, id_to_image, id_of_id_image,
}
use client_server_db.Odb.Image.RoundTrip.{IsStorable, of_image-to_image}
use client_server_db.Odb.Statements.{Statements, is_stale}
use client_server_db.Odb.Prepare.{
  write_image, write_id, bind_insert, bind_select, bind_id, bind_update, bind_update_id, note_id,
  prepare_insert, prepare_update, prepare_erase, prepare_find,
}

module _ {floats : Floats} (traits : Traits floats) where
  abbrev images : Statements traits → Image traits × IdImage traits × traits.Lock
  images s = (s.image, s.id_image, s.lock)

  images-bind_insert : (s : Statements traits) → images (bind_insert traits s) ≡ images s
  unfolding bind_insert
  images-bind_insert s = ground arith

  images-bind_id : (s : Statements traits) → images (bind_id traits s) ≡ images s
  unfolding bind_id
  images-bind_id s = ground arith

  images-bind_select : (s : Statements traits) → images (bind_select traits s) ≡ images s
  unfolding bind_select
  images-bind_select s = ground arith

  images-bind_update : (s : Statements traits) → images (bind_update traits s).0 ≡ images s
  unfolding bind_update
  images-bind_update s = ground arith

  images-note_id : (u : Bool) (s : Statements traits) → images (note_id traits u s) ≡ images s
  images-note_id true s = refl
  images-note_id false s = refl

  images-bind_update_id :
      (s : Statements traits) (u : Bool) → images (bind_update_id traits (s, u)) ≡ images s
  unfolding bind_update_id
  images-bind_update_id s u =
      elim (Bool-cases
        (is_stale traits s.id_image.version s.update_id_image_version s.id_image_binding)) [
          | inl stale ↦ rw stale (
              let s' = bind_id traits s in
              images-note_id u (record s' { update_id_image_version = s'.id_image.version })
              ∙ images-bind_id s)
          | inr kept ↦ rw kept refl
        ]

  -- The image of an object, but for the id; the image of ids stays.
  write_image_lem :
      Laws traits
      → (obj : Object floats) (s : Statements traits) → IsStorable obj.info
      → ((of_image traits (write_image traits obj s).image).info ≡ obj.info)
        × ((write_image traits obj s).id_image ≡ s.id_image)
  unfolding write_image of_image
  write_image_lem laws obj s h =
      let e = ap (λ o. o.info) (of_image-to_image traits laws s.image obj h) in
      elim (Bool-cases (to_image traits s.image obj).1) [
        | inl grew ↦ rw grew (e, refl)
        | inr fits ↦ rw fits (e, refl)
      ]

  lock-write_image :
      (obj : Object floats) (s : Statements traits) → (write_image traits obj s).lock ≡ s.lock
  unfolding write_image
  lock-write_image obj s = refl

  -- The version of the image goes up by one at most.
  write_image_version :
      (obj : Object floats) (s : Statements traits)
      → s.image.version + 1 < 2 ^ 64
      → (write_image traits obj s).image.version ≤ s.image.version + 1
  unfolding write_image
  write_image_version obj s h = elim (Bool-cases (to_image traits s.image obj).1) [
    | inl grew ↦ rw grew (omega (arith, h))
    | inr fits ↦ rw fits (omega (arith, h))
  ]

  write_id_lem :
      Laws traits
      → (id : ℕ) (s : Statements traits) → id < 2 ^ 64
      → (id_of_id_image traits (write_id traits id s).id_image ≡ id)
        × ((write_id traits id s).image ≡ s.image)
        × ((write_id traits id s).lock ≡ s.lock)
  unfolding write_id id_of_id_image id_to_image
  write_id_lem laws id s h = (laws.bigint_image_value id h, refl, refl)

  images-prepare_insert :
      (obj : Object floats) (s : Statements traits)
      → images (prepare_insert traits obj s) ≡ images (write_image traits obj s)
  unfolding prepare_insert
  images-prepare_insert obj s = images-bind_id _ ∙ images-bind_insert _

  pub prepare_insert_lem :
      Laws traits
      → (obj : Object floats) (s : Statements traits) → IsStorable obj.info
      → (of_image traits (prepare_insert traits obj s).image).info ≡ obj.info
  prepare_insert_lem laws obj s h =
      ap (λ i. (of_image traits i.0).info) (images-prepare_insert obj s)
      ∙ (write_image_lem laws obj s h).0

  pub prepare_update_lem :
      Laws traits
      → (obj : Object floats) (s : Statements traits) → obj.id_ < 2 ^ 64
      → IsStorable obj.info
      → ((of_image traits (prepare_update traits obj s).image).info ≡ obj.info)
        × (id_of_id_image traits (prepare_update traits obj s).id_image ≡ obj.id_)
  unfolding prepare_update
  prepare_update_lem laws obj s small h =
      let w = write_image_lem laws obj (write_id traits obj.id_ s) h in
      let same =
        images-bind_update_id _ _
        ∙ images-bind_update (write_image traits obj (write_id traits obj.id_ s)) in
      (
        ap (λ i. (of_image traits i.0).info) same ∙ w.0,
        ap (λ i. id_of_id_image traits i.1) same
            ∙ (ap (id_of_id_image traits) w.1 ∙ (write_id_lem laws obj.id_ s small).0),
      )

  pub prepare_erase_lem :
      Laws traits
      → (id : ℕ) (s : Statements traits) → id < 2 ^ 64
      → id_of_id_image traits (prepare_erase traits id s).id_image ≡ id
  unfolding prepare_erase
  prepare_erase_lem laws id s small =
      ap (λ i. id_of_id_image traits i.1) (images-bind_id _) ∙ (write_id_lem laws id s small).0

  pub prepare_find_lem :
      Laws traits
      → (id : ℕ) (s : Statements traits) → id < 2 ^ 64
      → (id_of_id_image traits (prepare_find traits id s).id_image ≡ id)
        × ((prepare_find traits id s).image ≡ s.image)
        × ((prepare_find traits id s).lock ≡ s.lock)
  unfolding prepare_find
  prepare_find_lem laws id s small =
      let same = images-bind_select (bind_id traits (write_id traits id s)) ∙ images-bind_id _ in
      let w = write_id_lem laws id s small in
      (
        ap (λ i. id_of_id_image traits i.1) same ∙ w.0,
        ap (λ i. i.0) same ∙ w.1,
        ap (λ i. i.2) same ∙ w.2,
      )

  -- The lock stays, and the version of the image goes up by one at most.
  pub prepare_insert_kept :
      (obj : Object floats) (s : Statements traits)
      → s.image.version + 1 < 2 ^ 64
      → ((prepare_insert traits obj s).lock ≡ s.lock)
        × ((prepare_insert traits obj s).image.version ≤ s.image.version + 1)
  prepare_insert_kept obj s small =
      let same = images-prepare_insert obj s in
      (
        ap (λ i. i.2) same ∙ lock-write_image obj s,
        rw (ap (λ i. i.0.version) same) (write_image_version obj s small),
      )

  pub prepare_update_kept :
      (obj : Object floats) (s : Statements traits)
      → s.image.version + 1 < 2 ^ 64
      → ((prepare_update traits obj s).lock ≡ s.lock)
        × ((prepare_update traits obj s).image.version ≤ s.image.version + 1)
  unfolding prepare_update write_id
  prepare_update_kept obj s small =
      let w = write_image traits obj (write_id traits obj.id_ s) in
      let same = images-bind_update_id _ _ ∙ images-bind_update w in
      (
        ap (λ i. i.2) same ∙ lock-write_image obj (write_id traits obj.id_ s),
        rw (ap (λ i. i.0.version) same) (write_image_version obj (write_id traits obj.id_ s) small),
      )

  pub prepare_erase_kept :
      (id : ℕ) (s : Statements traits)
      → ((prepare_erase traits id s).lock ≡ s.lock) × ((prepare_erase traits id s).image ≡ s.image)
  unfolding prepare_erase write_id
  prepare_erase_kept id s =
      let same = images-bind_id (write_id traits id s) in (ap (λ i. i.2) same, ap (λ i. i.0) same)
