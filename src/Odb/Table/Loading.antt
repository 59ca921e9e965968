-- ===== src/Odb/Table/Loading.antt =====
-- From a fetched row to the object, also where a buffer was too small: `grow` and the second fetch.
use client_server_db.Prelude.{
  ℕ, Text, List, [], ◌∷◌, ◌+◌, ◌^◌, ◌<◌, ◌≤◌, ◌≡◌, refl, sym, ap, ◌∙◌, Bool, true, false, some,
  arith, ◌||◌, if◌then◌else◌,
}
use client_server_db.Prelude.Exec.{ok}
use client_server_db.Floats.{Floats}
use client_server_db.Odb.Traits.{Traits}
use client_server_db.Odb.Traits.Laws.{Laws}
use client_server_db.Odb.Image.{Object, Image, of_image, changed}
use client_server_db.Odb.Binding.{
  statement_select, statement_insert, statement_update, bind, grow, Flags, reserve_if, Bind,
}
use client_server_db.Odb.Statements.{Statements, Driver, next_version, rebound}
use client_server_db.Odb.Statements.Synced.{IsSynced, IsBound-alike, IsBound-later, rebound-IsFresh}
use client_server_db.Odb.Prepare.{grow_image}
use client_server_db.Odb.Object.{Session, load_truncated}
use client_server_db.Odb.Table.Program
use client_server_db.Odb.Table.{Server, IsTextFetched, IsTextReady, IsFetched, IsReady, IsWritten}

module _ {floats : Floats} (traits : Traits floats) where
  -- An INSERT and an UPDATE bind what a SELECT binds, less the id.
  abbrev tail : List (Bind traits) → List (Bind traits)
  tail [] = []
  tail (b ∷ bs) = bs

  bound_alike :
      (im im' : Image traits)
      → bind traits im' statement_select ≡ bind traits im statement_select
      → (bind traits im' statement_insert ≡ bind traits im statement_insert)
        × (bind traits im' statement_update ≡ bind traits im statement_update)
  unfolding bind
  bound_alike im im' h = (ap tail h, ap tail h)

  pub IsWritten-IsSynced :
      (s : Statements traits) (im : Image traits)
      → IsWritten traits s.image im
      → IsSynced traits s
      → IsSynced traits (record s { image = im })
  IsWritten-IsSynced s im w h = record {
    insert = IsBound-alike traits w.version (bound_alike s.image im w.bound).0 h.insert;
    update = IsBound-alike traits w.version (bound_alike s.image im w.bound).1 h.update;
    select = IsBound-alike traits w.version w.bound h.select;
    ids = h.ids;
  }

  module _ (laws : Laws traits) where
    -- Where the flag is set the buffer gets room for the text; where not, it stays as it is.
    text_grown :
        (s : Text) (flag : Bool) (b : traits.Buffer) (size : ℕ) (null : Bool)
        → IsTextFetched traits s flag (traits.capacity b) size (traits.string_value b size null)
        → IsTextReady traits s flag
            (traits.capacity (reserve_if traits flag size b))
            (traits.string_value (reserve_if traits flag size b) size null)
    text_grown s true b size null h = record {
      fits = omega (arith, laws.capacity-reserve b size, h.size_lem);
      value_lem = λ e. cc;
    }
    text_grown s false b size null h = record {
      fits = ground (arith, h.flag_lem);
      value_lem = h.value_lem;
    }

    -- Where a column was truncated, the image grows, and a second fetch can complete it.
    pub grow-IsReady :
        (im : Image traits) (t : Flags traits) (o : Object floats)
        → IsFetched traits im t o
        → (if t 1 then true else if t 10 then true else t 11) ≡ true
        → IsReady traits (grow traits im t).0 (grow traits im t).1 o
          × ((grow traits im t).2 ≡ true)
          × ((grow traits im t).0.version ≡ im.version)
    unfolding grow of_image
    grow-IsReady im t o h some_flag = (
      record {
        numbers_lem = h.numbers_lem;
        client_key =
            text_grown _ (t 1) im.client_key_value im.client_key_size im.client_key_null
              h.client_key;
        system_ip =
            text_grown _ (t 10) im.system_info_value.system_ip_value
              im.system_info_value.system_ip_size im.system_info_value.system_ip_null h.system_ip;
        system_name =
            text_grown _ (t 11) im.system_info_value.system_name_value
              im.system_info_value.system_name_size im.system_info_value.system_name_null
              h.system_name;
      },
      any (t 1) (t 10) (t 11) some_flag,
      refl,
    )
      where
        any :
            (a b c : Bool)
            → (if a then true else if b then true else c) ≡ true
            → ((((a || false) || false) || false) || (b || c)) ≡ true
        any a b c h = ground arith

module _ {floats : Floats} {traits : Traits floats} {driver : Driver traits}
    (server : Server driver) where
  version_moves : (v w : ℕ) → v ≡ w → w + 1 < 2 ^ 64 → changed (next_version traits v) w ≡ true
  version_moves v w same small = ground (arith, same, small)

  next_version_later : (v w : ℕ) → w ≡ v → v + 1 < 2 ^ 64 → v < next_version traits w
  next_version_later v w same small = ground (arith, same, small)

  next_version_within : (v w : ℕ) → w ≡ v → next_version traits w ≤ v + 1
  next_version_within v w same = omega (arith, same)

  -- The second fetch completes the object, and leaves the invariant of the versions.
  pub load_truncated_lem :
      Laws traits
      → (c : driver.Cursor) (o : Object floats) (s : Session driver) → server.row c ≡ some o
      → IsFetched traits s.statements.image s.statements.select_image_truncated o
      → (let t = s.statements.select_image_truncated in
          (if t 1 then true else if t 10 then true else t 11) ≡ true)
      → s.statements.select_image_version ≡ s.statements.image.version
      → s.statements.image.version + 1 < 2 ^ 64
      → IsSynced traits s.statements
      → let r = load_truncated driver c s in
        (r.0 ≡ ok tt)
        × (of_image traits r.1.statements.image ≡ o)
        × IsSynced traits r.1.statements
        × (r.1.db ≡ s.db)
        × (r.1.statements.lock ≡ s.statements.lock)
        × (r.1.statements.image.version ≤ s.statements.image.version + 1)
  unfolding load_truncated grow_image of_image
  load_truncated_lem laws c o s row fetched some_flag same small synced =
      let g =
        grow-IsReady traits laws s.statements.image s.statements.select_image_truncated o fetched
          some_flag in
      let grown = (grow traits s.statements.image s.statements.select_image_truncated).0 in
      let im = record grown { version = next_version traits grown.version } in
      let later = next_version_later s.statements.image.version grown.version g.2 small in
      let fresh = rebound-IsFresh traits statement_select im s.statements.select_image_binding in
      let f =
        Program.refetch_lem server s.statements.id_image c (bind traits im statement_select) im
          (grow traits s.statements.image s.statements.select_image_truncated).1 o refl row
          (record {
            numbers_lem = g.0.numbers_lem;
            client_key = g.0.client_key;
            system_ip = g.0.system_ip;
            system_name = g.0.system_name;
          }) in
      rw (g.1, version_moves _ _ (g.2 ∙ sym same) (omega (arith, small, same)))
        (
          refl,
          f.0,
          IsWritten-IsSynced traits
              (record s.statements {
                image = im;
                select_image_binding =
                    rebound traits (bind traits im statement_select)
                      s.statements.select_image_binding;
                select_image_version = im.version;
                select_image_truncated =
                    (grow traits s.statements.image s.statements.select_image_truncated).1;
              })
              _ f.1
              (record {
                insert = IsBound-later traits later synced.insert;
                update = IsBound-later traits later synced.update;
                select = fresh.later;
                ids = synced.ids;
              }),
          refl,
          refl,
          rw f.1.version (next_version_within s.statements.image.version grown.version g.2),
        )
