-- ===== src/Odb/Table/Finding.antt =====
-- `find` and `reload` against the table.
use mathlib.Core.Path.{subst}
use client_server_db.Prelude.{
  ℕ, ◌+◌, ◌^◌, ◌<◌, ◌≡◌, refl, sym, ap, ◌∙◌, Bool, true, false, Option, some, if◌then◌else◌,
}
use client_server_db.Prelude.Exec.{Outcome, ok, throws, pure, continue, ◌>>=◌, database_exception}
use client_server_db.Floats.{Floats}
use client_server_db.Odb.Traits.{Traits}
use client_server_db.Odb.Traits.Laws.{Laws}
use client_server_db.Odb.Image.{Object}
use client_server_db.Odb.Statements.{Driver}
use client_server_db.Odb.Statements.Synced.{IsSynced}
use client_server_db.Odb.Object.{
  Session, current_transaction, find_row, find, find_into, found, load_if,
}
use client_server_db.Odb.Table.{object, Server}
use client_server_db.Odb.Table.Keeping.{IsUsable}
use client_server_db.Odb.Table.Searching.{FindsRow, IsKept, find_row_lem}

module _ {floats : Floats} {traits : Traits floats} {driver : Driver traits}
    (server : Server driver) where
  open server use {rows, answers, row}

  -- The part of a search that loads: `answer` says what a row, or none, is answered with.
  loads_lem :
      {A : Type 0} (answer : Option (Object floats) → A) (b : Bool) (o : Option (Object floats))
      (r : Outcome Bool) (s : Session driver)
      → FindsRow server b o (r, s)
      → let e = continue r (λ there. load_if driver there >>= λ x. pure (answer x)) s in
        e ≡ (if b then ok (answer o) else throws database_exception, s)
  loads_lem answer true Option.none r s h = rw h refl
  loads_lem answer true (some o) r s h = rw (h.0, h.1) refl
  loads_lem answer false o r s h = rw h refl

  -- Behind a search the lock is free again.
  unlocked_lem :
      Laws traits
      → {x y : Session driver} (s : Session driver) → traits.is_locked s.statements.lock ≡ false
      → x ≡ y
      → (let held = (traits.auto_lock s.statements.lock).0 in
          IsKept server (record s { statements = record s.statements { lock = held } }) y)
      → IsUsable driver 1 s (record x {
        statements = record x.statements { lock = traits.unlock x.statements.lock true };
      })
  unlocked_lem laws {x} {y} s free e h =
      subst
        (λ x. IsUsable driver 1 s (record x {
          statements = record x.statements { lock = traits.unlock x.statements.lock true };
        }))
        (sym e)
        (record {
          in_transaction = h.in_transaction_same;
          synced = record {
            insert = h.synced.insert;
            update = h.synced.update;
            select = h.synced.select;
            ids = h.synced.ids;
          };
          locked =
              ap (λ l. traits.is_locked (traits.unlock l true)) h.lock_same
              ∙ (laws.unlock_free s.statements.lock free ∙ sym free);
          version = h.version_within;
        })

  -- In a transaction, with the lock free, bindings that follow the images, room for the version of
  -- the image to go up once, and an id within its type: where the server answers, find answers the
  -- object of the row, whether or not its texts fit the buffers, and a null pointer where there is
  -- no row; where it does not, find throws. The table stays, the lock is free again, and the
  -- bindings still follow the images.
  pub find_lem :
      Laws traits
      → (id : ℕ) (s : Session driver) → driver.in_transaction s.db ≡ true
      → traits.is_locked s.statements.lock ≡ false
      → IsSynced traits s.statements
      → s.statements.image.version + 1 < 2 ^ 64
      → id < 2 ^ 64
      → ((find driver id s).0 ≡ (
          if answers s.db
          then ok (found driver (object id (rows s.db id)))
          else throws database_exception))
        × (rows (find driver id s).1.db ≡ rows s.db)
        × IsUsable driver 1 s (find driver id s).1
  unfolding find current_transaction
  find_lem laws id s in_tr unlocked synced small id_small =
      let s' = record s {
        statements = record s.statements { lock = (traits.auto_lock s.statements.lock).0 };
      } in
      let f =
        find_row_lem server laws id s'
          (record {
            insert = synced.insert;
            update = synced.update;
            select = synced.select;
            ids = synced.ids;
          })
          small id_small in
      let e =
        loads_lem (found driver) (answers s.db) (object id (rows s.db id)) (find_row driver id s').0
          (find_row driver id s').1 f.0 in
      rw (in_tr, laws.auto_lock_free s.statements.lock unlocked)
        (
          ap (λ x. x.0) e,
          ap (λ x. rows x.1.db) e ∙ f.1.rows_same,
          unlocked_lem laws s unlocked (ap (λ x. x.1) e) f.1,
        )

  loads_into_lem :
      (b : Bool) (o : Option (Object floats)) (r : Outcome Bool) (s : Session driver)
      → FindsRow server b o (r, s)
      → continue r (load_if driver) s ≡ (if b then ok o else throws database_exception, s)
  loads_into_lem true Option.none r s h = rw h refl
  loads_into_lem true (some o) r s h = rw (h.0, h.1) refl
  loads_into_lem false o r s h = rw h refl

  -- In a transaction, with the lock free, bindings that follow the images, room for the version of
  -- the image to go up once, and an id within its type: where the server answers, find into an
  -- object answers the object of the row, whether or not its texts fit the buffers, and none where
  -- there is no row; where it does not, it throws. The table stays, the lock is free again, and
  -- the bindings still follow the images.
  pub find_into_lem :
      Laws traits
      → (id : ℕ) (s : Session driver) → driver.in_transaction s.db ≡ true
      → traits.is_locked s.statements.lock ≡ false
      → IsSynced traits s.statements
      → s.statements.image.version + 1 < 2 ^ 64
      → id < 2 ^ 64
      → ((find_into driver id s).0
          ≡ (if answers s.db then ok (object id (rows s.db id)) else throws database_exception))
        × (rows (find_into driver id s).1.db ≡ rows s.db)
        × IsUsable driver 1 s (find_into driver id s).1
  unfolding find_into current_transaction
  find_into_lem laws id s in_tr unlocked synced small id_small =
      let s' = record s {
        statements = record s.statements { lock = (traits.auto_lock s.statements.lock).0 };
      } in
      let f =
        find_row_lem server laws id s'
          (record {
            insert = synced.insert;
            update = synced.update;
            select = synced.select;
            ids = synced.ids;
          })
          small id_small in
      let e =
        loads_into_lem (answers s.db) (object id (rows s.db id)) (find_row driver id s').0
          (find_row driver id s').1 f.0 in
      rw (in_tr, laws.auto_lock_free s.statements.lock unlocked)
        (
          ap (λ x. x.0) e,
          ap (λ x. rows x.1.db) e ∙ f.1.rows_same,
          unlocked_lem laws s unlocked (ap (λ x. x.1) e) f.1,
        )
