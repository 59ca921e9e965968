-- ===== src/Odb/Table/Sequences.antt =====
-- One operation after another in a transaction.
pub mod Histories
use mathlib.Core.Path.{subst}
use client_server_db.Prelude.{
  ℕ, ◌+◌, ◌^◌, ◌<◌, ◌≤◌, ◌≡◌, refl, sym, ap, ◌∙◌, Bool, true, false, Option, some, arith, ◌==◌,
  if◌then◌else◌,
}
use client_server_db.Prelude.Exec.{Exec, Outcome, ok, throws, database_exception}
use client_server_db.Floats.{Floats}
use client_server_db.Machine.{MachineInfo}
use client_server_db.Odb.Traits.{Traits}
use client_server_db.Odb.Traits.Laws.{Laws}
use client_server_db.Odb.Image.{Object}
use client_server_db.Odb.Image.RoundTrip.{IsStorable}
use client_server_db.Odb.Statements.{Statements, Driver}
use client_server_db.Odb.Statements.Synced.{IsSynced}
use client_server_db.Odb.Object.{Session, persist, update, erase, find, found, loaded, missing}
use client_server_db.Odb.Table.{Table, put, remove, replace, object, Server}
use client_server_db.Odb.Table.Changing.{Persisted, persist_lem, update_lem, erase_lem, if_row}
use client_server_db.Odb.Table.Finding.{find_lem}
use client_server_db.Odb.Table.Keeping.{IsUsable, persist-IsUsable, update-IsUsable, erase-IsUsable}

module _ {floats : Floats} where
  get-put : (id : ℕ) (info : MachineInfo floats) (t : Table floats) → put id info t id ≡ some info
  unfolding put
  get-put id info t = ground arith

  -- After an UPDATE and a DELETE that ended well.
  updated :
      (b : Bool) (id : ℕ) (info : MachineInfo floats) (t : Table floats)
      → (if b then if_row (t id) else throws database_exception) ≡ ok tt
      → (if b then replace id info t else t) id ≡ some info
  unfolding replace
  updated b id info t h = ground arith

  erased :
      (b : Bool) (id : ℕ) (t : Table floats)
      → (if b then if_row (t id) else throws database_exception) ≡ ok tt
      → (if b then remove id t else t) id ≡ Option.none
  unfolding remove
  erased b id t h = ground arith

module _ {floats : Floats} {traits : Traits floats} (driver : Driver traits) where
  -- A session between two operations: in a transaction, with no load in progress, with bindings
  -- that follow the images, and n buffers may still move before the version of the image wraps.
  pub record IsIdle (n : ℕ) (s : Session driver) : Type 0 where
    pub in_transaction : driver.in_transaction s.db ≡ true
    pub unlocked : traits.is_locked s.statements.lock ≡ false
    pub synced : IsSynced traits s.statements
    pub version : s.statements.image.version + n < 2 ^ 64

  pub usable-IsIdle :
      {n m : ℕ} {s s' : Session driver} → IsUsable driver n s s' → IsIdle (n + m) s → IsIdle m s'
  usable-IsIdle u h = record {
    in_transaction = u.in_transaction ∙ h.in_transaction;
    unlocked = u.locked ∙ h.unlocked;
    synced = u.synced;
    version = omega (arith, u.version, h.version);
  }

  pub fewer-IsIdle : (m : ℕ) {n : ℕ} {s : Session driver} → m ≤ n → IsIdle n s → IsIdle m s
  fewer-IsIdle m le h = record {
    in_transaction = h.in_transaction;
    unlocked = h.unlocked;
    synced = h.synced;
    version = omega (arith, h.version, le);
  }

  pub one_left :
      (n : ℕ) {s : Session driver} → IsIdle (1 + n) s → s.statements.image.version + 1 < 2 ^ 64
  one_left n h = omega (arith, h.version)

module _ {floats : Floats} {traits : Traits floats} {driver : Driver traits}
    (server : Server driver) where
  open server use {rows, answers}

  -- What a search answers for a row that is there.
  find_there :
      Laws traits
      → (id : ℕ) (s : Session driver) (o : Option (Object floats)) → IsIdle driver 1 s
      → id < 2 ^ 64
      → answers s.db ≡ true
      → object id (rows s.db id) ≡ o
      → (find driver id s).0 ≡ ok (found driver o)
  find_there laws id s o h small here row =
      (find_lem server laws id s h.in_transaction h.unlocked h.synced h.version small).0
      ∙ rw (here, row) refl

  -- From a session between two operations, with room for the version of the image to go up twice:
  -- an object within the ranges of its fields that was persisted is found under its new id, as it
  -- was given, where the server answers.
  pub find-persist :
      Laws traits
      → (obj : Object floats) (s : Session driver) (o : Object floats) → IsIdle driver 2 s
      → IsStorable obj.info
      → (persist driver obj s).0 ≡ ok o
      → answers (persist driver obj s).1.db ≡ true
      → (find driver o.id_ (persist driver obj s).1).0 ≡ ok (loaded (record obj { id_ = o.id_ }))
  find-persist laws obj s o h storable done here =
      let small = one_left driver 1 h in
      let p =
        subst (Persisted obj (rows s.db) (rows (persist driver obj s).1.db)) done
          (persist_lem server laws obj s h.in_transaction h.synced small storable) in
      find_there laws o.id_ _ (some (record obj { id_ = o.id_ }))
        (usable-IsIdle driver (persist-IsUsable server laws obj s h.in_transaction h.synced small)
          h)
        p.3 here
        (ap (λ t. object o.id_ (t o.id_)) p.2
          ∙ ap (object o.id_) (get-put o.id_ obj.info (rows s.db)))

  -- From a session between two operations, with room for the version of the image to go up twice:
  -- an object within the ranges of its fields that was updated is found as it was given, where the
  -- server answers.
  pub find-update :
      Laws traits
      → (obj : Object floats) (s : Session driver) → IsIdle driver 2 s
      → IsStorable obj.info
      → obj.id_ < 2 ^ 64
      → (update driver obj s).0 ≡ ok tt
      → answers (update driver obj s).1.db ≡ true
      → (find driver obj.id_ (update driver obj s).1).0 ≡ ok (loaded obj)
  find-update laws obj s h storable small done here =
      let moved = one_left driver 1 h in
      let u = update_lem server laws obj s h.in_transaction h.synced moved small storable in
      find_there laws obj.id_ _ (some obj)
        (usable-IsIdle driver (update-IsUsable server laws obj s h.in_transaction h.synced moved) h)
        small here
        (ap (λ t. object obj.id_ (t obj.id_)) u.1
          ∙ ap (object obj.id_)
              (updated (answers s.db) obj.id_ obj.info (rows s.db) (sym u.0 ∙ done)))

  -- From a session between two operations, with room for the version of the image to go up once:
  -- for an object that was erased find answers a null pointer, where the server answers.
  pub find-erase :
      Laws traits
      → (id : ℕ) (s : Session driver) → IsIdle driver 1 s
      → id < 2 ^ 64
      → (erase driver id s).0 ≡ ok tt
      → answers (erase driver id s).1.db ≡ true
      → (find driver id (erase driver id s).1).0 ≡ ok missing
  find-erase laws id s h small done here =
      let e = erase_lem server laws id s h.in_transaction h.synced small in
      find_there laws id _ Option.none
        (usable-IsIdle driver (erase-IsUsable server 0 id s h.in_transaction h.synced) h) small here
        (ap (λ t. object id (t id)) e.1
          ∙ ap (object id) (erased (answers s.db) id (rows s.db) (sym e.0 ∙ done)))
